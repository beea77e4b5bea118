-- ===== src/Project/Git.antt =====
-- The commands of `GitService` in crates/maestro-project/src/git.rs. Running the installed Git is a
-- parameter: what it writes and how it ends.
pub mod Output
pub mod Status
pub mod Worktrees
