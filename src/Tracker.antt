-- ===== src/Tracker.antt =====
-- internal/tracker: live tracking of the active incident.
pub mod Judge
pub mod Interval
pub mod Process
