-- ===== src/Retry.antt =====
-- src/retry: retry policies and the executors that apply them.
mod Tests
pub mod Policy
pub mod Executor
