-- ===== src/Daemon.antt =====
-- crates/maestrod: the per-user daemon that owns sessions, runs and terminals.
pub mod Pending
pub mod Sequence
pub mod Terminal
pub mod Terminals
pub mod Events
pub mod Capture
pub mod Frames
pub mod Run
pub mod Bindings
pub mod Limits
pub mod Delivery
pub mod Dispatch
