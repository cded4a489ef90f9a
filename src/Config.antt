-- ===== src/Config.antt =====
-- The configuration subsystem (src/config): the manifest of an application's settings, and the
-- resolution of its layers.
pub mod Manifest
pub mod Resolution
pub mod Service
pub mod Store
pub mod Managed
mod Tests
