-- ===== src/Spec.antt =====
-- src/spec: the declaration of a command, its arguments and its place in the tree.
mod Tests
pub mod Args
pub mod Paths
pub mod Validation
