-- ===== src/Telemetry.antt =====
-- telemetry/: the scale factors of the values that are sent, and what a restart keeps.
pub mod ScaleFactor
pub mod Checkpoint
pub mod Json
pub mod Scaling
pub mod Tests
