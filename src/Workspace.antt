-- ===== src/Workspace.antt =====
-- The package internal/workspace: which workspace an SSH username selects, and how it is named.
pub mod Stdlib
pub mod Selector
pub mod Usernames
pub mod Identity
pub mod Clean
pub mod Labels
pub mod Normalize
pub mod Names
pub mod Distinct
pub mod Examples
