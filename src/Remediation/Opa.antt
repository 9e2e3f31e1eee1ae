-- ===== src/Remediation/Opa.antt =====
-- remediation/opa_policy.py: the autonomy context, the certification denial and the local reference
-- evaluator. The OPA client is an HTTP call: where the code takes any evaluator, so does the model.
pub mod Grants
mod Tests
use engineering_intelligence.Base.{
  ℕ, String, Bool, true, false, not, ◌&&◌, ◌||◌, Option, none, some, contains, ltb, leb, ◌==◌,
  str_eq, if◌then◌else◌,
}
use engineering_intelligence.Base.Int.{pos, leb_ℤ, ltb_ℤ}
use engineering_intelligence.Base.Text.{is_blank, reads_as_upper}
use engineering_intelligence.Resilience.Scope.{Library, parse_instant}
use engineering_intelligence.Remediation.Catalog.{AutonomyLevel, Runbook, rank}
use engineering_intelligence.Remediation.Policy.{
  PolicyReason, ServiceAutonomy, ActionRequest, Reason, PolicyDecision, policy_reason,
  with_revision, authorized, kill_switch, outside_scope, runbook_environment, blast_radius,
  autonomy_level, runbook_certification, human_approval, error_budget, certification_absent,
  evaluation_time_unreadable, certification_expiry_unreadable, certification_expired, scope_missing,
  scope_mismatch, inputs_hash_missing, audit_unavailable, verification_unavailable,
}

pub record PolicyControlState : Type 0 where
  pub audit_available : Bool
  pub verification_defined : Bool

pub record CertificationClaim : Type 0 where
  pub scope_hash : String
  pub inputs_hash : String
  pub expires_on : String

-- `declared` is `autonomy_level`; `none` stands for a value that is no text.
pub record AutonomyContext : Type 0 where
  pub declared : Option String
  pub scope_hash : String
  pub now : String
  pub certification : Option CertificationClaim
  pub policy_level : ℕ

declares : String → Option String → Bool
declares word none = false
declares word (some text) = reads_as_upper word text

unfoldable pub is_l4 : AutonomyContext → Bool
unfolding declares
is_l4 context =
    if declares "L4" context.declared
    then true
    else if declares "L3" context.declared
    then false
    else leb 4 context.policy_level

unfoldable pub effective_level : AutonomyContext → ℕ
unfolding declares
effective_level context =
    if declares "L3" context.declared && leb 4 context.policy_level then 3 else context.policy_level

-- "L{int(level)}"
abbrev pub level_text : AutonomyLevel → String
level_text AutonomyLevel.observe = "L0"
level_text AutonomyLevel.recommend = "L1"
level_text AutonomyLevel.human_execute = "L2"
level_text AutonomyLevel.approve_and_execute = "L3"
level_text AutonomyLevel.bounded_autonomous = "L4"

-- `clock` is the text of the current time.
abbrev pub for_policy : String → ServiceAutonomy → AutonomyContext
for_policy clock policy = record {
  declared = some (level_text policy.level);
  scope_hash = "";
  now = clock;
  certification = none;
  policy_level = rank policy.level;
}

unexpired_denial : AutonomyContext → CertificationClaim → ℕ → ℕ → Option PolicyReason
unexpired_denial autonomy claim now expires =
    if leb expires now
    then some certification_expired
    else if is_blank autonomy.scope_hash
    then some scope_missing
    else if not (str_eq claim.scope_hash autonomy.scope_hash)
    then some scope_mismatch
    else if is_blank claim.inputs_hash
    then some inputs_hash_missing
    else none

dated_denial : AutonomyContext → CertificationClaim → Option ℕ → Option ℕ → Option PolicyReason
unfolding unexpired_denial
dated_denial autonomy claim none expires = some evaluation_time_unreadable
dated_denial autonomy claim (some now) none = some certification_expiry_unreadable
dated_denial autonomy claim (some now) (some expires) = unexpired_denial autonomy claim now expires

claim_denial : Library → AutonomyContext → Option CertificationClaim → Option PolicyReason
unfolding dated_denial
claim_denial lib autonomy none = some certification_absent
claim_denial lib autonomy (some claim) =
    dated_denial autonomy claim (parse_instant lib autonomy.now)
      (parse_instant lib claim.expires_on)

unfoldable pub certification_denial : Library → AutonomyContext → Option PolicyReason
unfolding claim_denial
certification_denial lib autonomy =
    if is_l4 autonomy then claim_denial lib autonomy autonomy.certification else none

pub record EvaluatedPolicyDecision : Type 0 where
  pub allowed : Bool
  pub reason : Reason
  pub policy_revision : String

abbrev pub refused_locally : PolicyReason → EvaluatedPolicyDecision
refused_locally r = record {
  allowed = false;
  reason = policy_reason r;
  policy_revision = "local-reference";
}

or_for_policy : String → ServiceAutonomy → Option AutonomyContext → AutonomyContext
or_for_policy clock policy none = for_policy clock policy
or_for_policy clock policy (some context) = context

-- The controls that are asked last.
control_decision : PolicyControlState → EvaluatedPolicyDecision
control_decision control =
    if not control.audit_available
    then refused_locally audit_unavailable
    else if not control.verification_defined
    then refused_locally verification_unavailable
    else record {
      allowed = true;
      reason = policy_reason authorized;
      policy_revision = "local-reference";
    }

unless_denied : Option PolicyReason → EvaluatedPolicyDecision → EvaluatedPolicyDecision
unless_denied none decision = decision
unless_denied (some reason) decision = refused_locally reason

-- `LocalReferenceEvaluator.evaluate`
unfoldable pub evaluate :
    Library
    → String
    → Runbook
    → ServiceAutonomy
    → ActionRequest
    → Bool
    → PolicyControlState
    → Option AutonomyContext
    → EvaluatedPolicyDecision
unfolding or_for_policy control_decision unless_denied
evaluate lib clock runbook policy request approval_verified control autonomy =
    let given = or_for_policy clock policy autonomy in
    let context = record given { policy_level = rank policy.level } in
    if policy.kill_switch
    then refused_locally kill_switch
    else if not (str_eq request.service policy.service)
        || not (str_eq request.environment policy.environment)
    then refused_locally outside_scope
    else if not (contains request.environment runbook.environments)
    then refused_locally runbook_environment
    else if ltb_ℤ runbook.max_blast_radius request.blast_radius
        || ltb_ℤ policy.max_blast_radius request.blast_radius
    then refused_locally blast_radius
    else if ltb (rank policy.level) (rank runbook.required_level)
    then refused_locally autonomy_level
    else if not (contains runbook.id policy.certified_runbooks)
    then refused_locally runbook_certification
    else if effective_level context == 3 && not approval_verified
    then refused_locally human_approval
    else if leb 4 (rank policy.level) && leb_ℤ request.error_budget_remaining (pos 0)
    then refused_locally error_budget
    else unless_denied (certification_denial lib context) (control_decision control)

unfoldable pub as_policy_decision : EvaluatedPolicyDecision → PolicyDecision
as_policy_decision value = record {
  allowed = value.allowed;
  reason = with_revision value.reason value.policy_revision;
}
