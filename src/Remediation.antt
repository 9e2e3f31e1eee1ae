-- ===== src/Remediation.antt =====
-- The remediation package: what may be run, who may run it, and how it is run.
pub mod Planner
pub mod Catalog
pub mod Policy
pub mod Opa
pub mod Lock
pub mod Adapter
pub mod Canary
pub mod Executor
mod Samples
