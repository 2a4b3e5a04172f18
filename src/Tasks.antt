-- ===== src/Tasks.antt =====
-- The programs that observe tasks: lockups, hung tasks, the OOM killer, and the CPU profiler.
pub mod Alarms
pub mod AlarmsLimit
pub mod Perf
