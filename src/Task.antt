-- ===== src/Task.antt =====
-- The task lifecycle (apps/canvas-api/src/task).
pub mod Status
pub mod Row
pub mod Table
pub mod Store
pub mod Claim
pub mod World
pub mod Projection
pub mod Terminal
pub mod RetryPolicy
pub mod Retry
pub mod Statement
pub mod Failure
pub mod Recovery
pub mod RecoveryTests
pub mod Invoke
pub mod Executor
pub mod Poller
pub mod Runner
pub mod Dispatch
pub mod Samples
pub mod Tests
pub mod EndTests
pub mod OwnerTests
pub mod ExecutorTests
