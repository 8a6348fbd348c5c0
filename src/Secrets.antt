-- ===== src/Secrets.antt =====
-- crates/secrets: reading secrets of a vault with a token that is cached and renewed.
pub mod Error
pub mod Api
pub mod Client
mod Tests
