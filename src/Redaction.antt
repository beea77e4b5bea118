-- ===== src/Redaction.antt =====
-- crates/maestro-redaction/src/lib.rs: secrets are cut out of texts and JSON before they are shown
-- or stored.
pub mod Bytes
pub mod Scan
pub mod Ranges
pub mod Json
