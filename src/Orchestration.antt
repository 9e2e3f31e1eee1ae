-- ===== src/Orchestration.antt =====
-- The orchestration package: the durable job queue, signed approvals, the remediation workflow and its
-- activities.
pub mod Jobs
pub mod Approvals
pub mod RemediationWorkflow
pub mod Activities
