-- ===== src/Eval.antt =====
-- internal/eval: reading a value out of a response, and the assertions on it.
pub mod Json
pub mod Path
pub mod RoundTrip
pub mod Query
pub mod Reach
pub mod Assert
pub mod Opposite
pub mod Latency
mod Tests
