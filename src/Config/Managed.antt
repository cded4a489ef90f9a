-- ===== src/Config/Managed.antt =====
-- src/config/managed: the client of an organisation's policy. Cache is its cache, Client the fetch with
-- its failures, Flatten the paths of a document (src/config/resolution/flatten.rs), Fold the policy
-- laid over the local configuration.
pub mod Cache
pub mod Client
pub mod Flatten
pub mod Fold
pub mod Roaming
mod Tests
