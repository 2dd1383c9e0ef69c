-- ===== src/Incident.antt =====
-- internal/incident: incidents, team tasks, assignments and their missions.
pub mod Model
pub mod Tables
pub mod Store
pub mod Open
pub mod Teams
pub mod Draft
pub mod Plans
