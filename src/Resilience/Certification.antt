-- ===== src/Resilience/Certification.antt =====
-- resilience/certification.py: the certification record and why it may not authorize a request.
use engineering_intelligence.Base.{
  ℕ, String, not, Option, none, some, List, leb, str_eq, if◌then◌else◌,
}
use engineering_intelligence.Base.Result.{Result}
use engineering_intelligence.Resilience.Scope.{
  CertificationScope, Library, ScopeError, new_scope, parse_instant, material_inputs_hash,
}
use engineering_intelligence.Remediation.Catalog.{Runbook}
use engineering_intelligence.Remediation.Policy.{
  ActionRequest, ServiceAutonomy, Reason, policy_reason, certification_absent,
  record_expiry_unreadable, record_expired_on, record_scope_mismatch, record_inputs_changed,
}

pub record L4CertificationRecord : Type 0 where
  pub scope : CertificationScope
  pub scope_hash : String
  pub inputs_hash : String
  pub exercises_digest : String
  pub issued_on : String
  pub expires_on : String
  pub issued_by : String
  pub evidence_ids : List String

module _ (lib : Library) where
  -- The checks on a record that is there, once its expiry has been parsed.
  refusal_at : Option ℕ → L4CertificationRecord → String → String → ℕ → Option Reason
  refusal_at none record_ scope_hash inputs_hash now = some record_expiry_unreadable
  refusal_at (some expires) record_ scope_hash inputs_hash now =
      if leb expires now
      then some (record_expired_on record_.expires_on)
      else if not (str_eq record_.scope_hash scope_hash)
      then some record_scope_mismatch
      else if not (str_eq record_.inputs_hash inputs_hash)
      then some record_inputs_changed
      else none

  unfoldable pub certification_refusal :
      Option L4CertificationRecord → String → String → ℕ → Option Reason
  unfolding refusal_at
  certification_refusal none scope_hash inputs_hash now = some (policy_reason certification_absent)
  certification_refusal (some record_) scope_hash inputs_hash now =
      refusal_at (parse_instant lib record_.expires_on) record_ scope_hash inputs_hash now

  unfoldable pub material_inputs_hash_for : CertificationScope → Runbook → String → String
  material_inputs_hash_for scope runbook policy_bundle_version =
      material_inputs_hash lib scope runbook policy_bundle_version runbook.verify_signal
        runbook.preconditions

unfoldable pub certification_scope_for :
    ServiceAutonomy → ActionRequest → Runbook → Result ScopeError CertificationScope
certification_scope_for policy request runbook =
    new_scope request.service request.environment runbook.id policy.max_blast_radius
