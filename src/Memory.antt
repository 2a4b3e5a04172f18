-- ===== src/Memory.antt =====
-- The programs that observe memory reclaim and compaction.
pub mod Reclaim
pub mod ReclaimEvents
pub mod FreeCompact
