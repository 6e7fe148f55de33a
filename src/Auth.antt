-- ===== src/Auth.antt =====
-- The package internal/auth: whether an SSH key belongs to an allowed GitHub user.
pub mod Github
pub mod Authenticator
pub mod Answers
pub mod Freshness
pub mod Callers
pub mod Duplicates
pub mod Examples
