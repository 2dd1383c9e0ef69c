-- ===== src/Transit.antt =====
-- internal/transit: travel times by bus and metro on stored routes.
pub mod Network
pub mod Search
