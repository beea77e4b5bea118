-- ===== src/Storage.antt =====
-- crates/maestro-storage, and the part of crates/maestrod that drives it: what is kept on disk, and
-- for how long.
pub mod Retention
pub mod Batches
pub mod Maintenance
pub mod Scrollback
