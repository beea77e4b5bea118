-- ===== src/Domain.antt =====
-- crates/maestro-domain: the durable types shared by the daemon and the desktop.
pub mod Session
pub mod Permission
