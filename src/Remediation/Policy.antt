-- ===== src/Remediation/Policy.antt =====
-- remediation/policy.py and the reasons of remediation/policy_contract.py.
-- The texts of refusals are the constructors of `Reason`, with what each text names. An error budget
-- is a float that is only compared with 0: it is an integer in any fixed unit.
use engineering_intelligence.Base.{
  String, Bool, true, false, not, ◌&&◌, ◌||◌, Option, none, some, List, contains, ltb, leb, ◌==◌,
  str_eq, if◌then◌else◌,
}
use engineering_intelligence.Base.Int.{ℤ, pos, leb_ℤ, ltb_ℤ}
use engineering_intelligence.Resilience.Scope.{ScopeError}
use engineering_intelligence.Remediation.Catalog.{AutonomyLevel, Runbook, rank}

pub data PolicyReason : Type 0 where
  authorized kill_switch policy_level_missing outside_scope runbook_environment blast_radius
        autonomy_level runbook_certification human_approval error_budget certification_absent
        evaluation_time_unreadable certification_expiry_unreadable certification_expired
        scope_missing scope_mismatch inputs_hash_missing audit_unavailable
        verification_unavailable :
      PolicyReason

pub record ServiceAutonomy : Type 0 where
  pub service : String
  pub environment : String
  pub level : AutonomyLevel
  pub certified_runbooks : List String
  pub max_blast_radius : ℤ
  pub kill_switch : Bool

pub record ActionRequest : Type 0 where
  pub service : String
  pub environment : String
  pub runbook_id : String
  pub blast_radius : ℤ
  pub approval_token : Option String
  pub error_budget_remaining : ℤ

pub data Reason : Type 0 where
  policy_reason : PolicyReason → Reason
  approval_token_required authorized_locally : Reason
  -- the text that the policy service returned
  service_text : String → Reason
  -- "{reason} [policy={revision}]"
  with_revision : Reason → String → Reason
  -- resilience/certification.py
  record_expiry_unreadable record_scope_mismatch record_inputs_changed : Reason
  record_expired_on : String → Reason
  uncertifiable : ScopeError → Reason
  -- remediation/executor.py; a level claim is shown by its number where it has one
  kill_switch_engaged evaluator_required level_unreadable : Reason
  level_exceeds level_not_downgrade : AutonomyLevel → AutonomyLevel → Reason
  preconditions_failed : Reason
  preflight_refused preflight_raised : String → Reason

pub record PolicyDecision : Type 0 where
  pub allowed : Bool
  pub reason : Reason

abbrev pub refuse : PolicyReason → PolicyDecision
refuse r = record { allowed = false; reason = policy_reason r }

-- `not request.approval_token`
abbrev pub lacks_token : Option String → Bool
lacks_token none = true
lacks_token (some token) = str_eq token ""

unfoldable pub authorize : Runbook → ServiceAutonomy → ActionRequest → PolicyDecision
authorize runbook policy request =
    if policy.kill_switch
    then refuse kill_switch
    else if not (str_eq request.service policy.service)
        || not (str_eq request.environment policy.environment)
    then refuse outside_scope
    else if not (contains request.environment runbook.environments)
    then refuse runbook_environment
    else if ltb_ℤ runbook.max_blast_radius request.blast_radius
        || ltb_ℤ policy.max_blast_radius request.blast_radius
    then refuse blast_radius
    else if ltb (rank policy.level) (rank runbook.required_level)
    then refuse autonomy_level
    else if not (contains runbook.id policy.certified_runbooks)
    then refuse runbook_certification
    else if rank policy.level == 3 && lacks_token request.approval_token
    then record { allowed = false; reason = approval_token_required }
    else if leb 4 (rank policy.level) && leb_ℤ request.error_budget_remaining (pos 0)
    then refuse error_budget
    else record { allowed = true; reason = authorized_locally }
