-- ===== src/History.antt =====
-- The package history: what devices measured, in intervals.
pub mod Intervals
