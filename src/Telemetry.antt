-- ===== src/Telemetry.antt =====
-- src/telemetry: the decision what telemetry a process sends. Axes and Probe hold the vocabulary,
-- Policy the decision, Redact the rules at the export boundary, Notice the first-run notice,
-- Startup the order in which a process starts telemetry.
pub mod Axes
pub mod Probe
pub mod Policy
pub mod Redact
pub mod Notice
pub mod Env
pub mod Store
pub mod Startup
mod Tests
