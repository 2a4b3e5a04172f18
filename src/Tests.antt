-- ===== src/Tests.antt =====
-- The theorems at concrete inputs, and runs of the programs, one child for each part.
mod Limiter
mod Scheduling
mod Softirqs
mod MemoryProbes
mod Packets
mod Receive
mod Autotracing
mod CpuUse
mod Tracers
mod Tasks
mod Profiles
mod Symbols
mod Devices
mod TaskProbes
mod Wire
