-- ===== src/Adapter.antt =====
-- crates/maestro-adapter: the boundary between the daemon and a vendor's command line tool.
pub mod Jsonl
pub mod Catalog
