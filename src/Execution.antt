-- ===== src/Execution.antt =====
-- internal/execution: previews, the confirmation policy, the executor and its row limit.
pub mod Value
pub mod Model
pub mod Preview
pub mod Policy
pub mod Driver
pub mod Executor
pub mod Rows
pub mod Examples
mod Tests
