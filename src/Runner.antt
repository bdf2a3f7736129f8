-- ===== src/Runner.antt =====
-- worker/src/agentstorm_worker/runner.py: `WorkloadRunner`, by its parts.
pub mod Records
pub mod Metadata
pub mod Attempt
pub mod Usage
pub mod Case
pub mod Finish
pub mod Shards
pub mod Workers
pub mod Summary
pub mod Configured
