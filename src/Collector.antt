-- ===== src/Collector.antt =====
-- internal/collector: what a finished run's samples are turned into.
pub mod Samples
pub mod Series
pub mod Threshold
pub mod Knee
pub mod Trend
mod Tests
