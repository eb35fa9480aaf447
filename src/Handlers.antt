-- ===== src/Handlers.antt =====
-- internal/handlers: the HTTP handlers, a module for each file.
pub mod Notes
pub mod Auth
pub mod Admin
