-- ===== src/Repos.antt =====
-- internal/repos: the queries of the program, a module for each file.
pub mod RefreshTokens
pub mod Idempotency
pub mod IdempotencyGeneric
pub mod Notes
pub mod Users
pub mod Roles
pub mod Audit
pub mod Limiters
pub mod Frames
pub mod Closed
pub mod Steps
pub mod Sound
