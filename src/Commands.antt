-- ===== src/Commands.antt =====
-- cmd: the commands beside the server.
pub mod Ended
pub mod Api
pub mod Keygen
pub mod SeedAdmin
mod Tests
