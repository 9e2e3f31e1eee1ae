-- ===== src/Intelligence.antt =====
-- The intelligence package: incident analysis.
pub mod Incidents
