-- ===== src/Report.antt =====
-- internal/report: how two texts and two documents are compared.
pub mod Align
pub mod Hunks
pub mod Diff
pub mod JsonDiff
mod Tests
