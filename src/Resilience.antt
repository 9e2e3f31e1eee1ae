-- ===== src/Resilience.antt =====
-- The resilience package: what a certification is about, and when it authorizes an execution.
pub mod Scope
pub mod Certification
