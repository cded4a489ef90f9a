-- ===== src/Config/Service.antt =====
-- src/config/service: the server that resolves a caller to a profile and serves its policy.
pub mod MergePatch
pub mod Types
pub mod Inherit
pub mod Assignment
pub mod Validate
pub mod State
