-- ===== src/Project.antt =====
-- crates/maestro-project: local operations confined to the workspace roots of a project.
pub mod Paths
pub mod Roots
pub mod Access
pub mod Git
