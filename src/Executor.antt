-- ===== src/Executor.antt =====
-- internal/executor: the load generator, from one sample up to the run.
pub mod Classify
pub mod Retry
pub mod Scope
pub mod Outside
pub mod Pool
pub mod StepOut
pub mod Ws
pub mod Grpc
pub mod Request
pub mod Iteration
pub mod Flow
pub mod Sample
mod Fixtures
mod Tests
