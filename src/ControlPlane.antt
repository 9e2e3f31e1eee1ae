-- ===== src/ControlPlane.antt =====
-- The control_plane package: runtime modes.
pub mod Runtime
pub mod Remediation
