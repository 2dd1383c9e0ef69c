-- ===== src/Roster.antt =====
-- internal/roster: the members, who are the accounts of the field client.
pub mod Normalize
pub mod Members
