-- ===== src/Plugins.antt =====
-- src/plugin: the manifests of plugins and the registry of an application's plugins.
pub mod Manifest
pub mod Registry
mod Tests
