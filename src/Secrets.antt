-- ===== src/Secrets.antt =====
-- src/secrets: the names of secrets.
pub mod Key
mod Tests
