-- ===== src/Process.antt =====
-- crates/maestro-process: how child processes are started.
pub mod Environment
