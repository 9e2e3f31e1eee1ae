-- ===== src/State.antt =====
-- The state package: workflow records, their lifecycle, the state store and the audit log.
pub mod Models
pub mod Lifecycle
pub mod Payload
pub mod Store
pub mod Audit
