-- ===== src/Security.antt =====
-- src/security: the risk tier of a command and the check before it runs.
mod Tests
pub mod Risk
