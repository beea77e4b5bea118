-- ===== src/Protocol.antt =====
-- crates/maestro-protocol and the framing of crates/maestrod/src/ipc.rs: messages between the
-- desktop client and the daemon.
pub mod Frame
