-- ===== src/Autotracing.antt =====
-- core/autotracing: tracers that sample the host or its containers and save a report when they
-- see a burst.
pub mod MemBurst
pub mod CpuIdle
pub mod CpuSys
pub mod Dload
