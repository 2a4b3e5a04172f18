-- ===== src/Tracing.antt =====
-- pkg/tracing: the tracers and the tasks of the daemon.
pub mod Event
pub mod Manager
pub mod Task
