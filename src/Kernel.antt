-- ===== src/Kernel.antt =====
-- What the BPF programs take from the kernel.
pub mod BpfMap
pub mod Table
pub mod Laws
pub mod Cpus
pub mod Overrun
pub mod Weights
pub mod InsertRace
pub mod Enums
pub mod Taint
pub mod Compat
