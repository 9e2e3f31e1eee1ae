-- ===== src/Remediation/Executor.antt =====
-- remediation/executor.py: the bounded control loop. The loop is a chain of early returns over a host
-- state: the calls made so far and the lock manager's leases, if there is a manager.
mod Levels
mod Returns
mod Action
pub mod Authority
pub mod Outcomes
mod Tests
unfoldable pub use Levels.*
pub use Returns.*
unfoldable pub use Action.*
use engineering_intelligence.Base.{
  ℕ, String, Bool, true, false, not, ◌&&◌, ◌||◌, Option, none, some, List, [], ◌∷◌, leb,
  if◌then◌else◌,
}
use engineering_intelligence.Base.Result.{Result, ok, raised}
use engineering_intelligence.ControlPlane.Runtime.{Environ}
use engineering_intelligence.Resilience.Scope.{Library, CertificationScope, ScopeError, scope_hash}
use engineering_intelligence.Resilience.Certification.{
  L4CertificationRecord, certification_refusal, material_inputs_hash_for, certification_scope_for,
}
use engineering_intelligence.Remediation.Catalog.{AutonomyLevel, Runbook, RunbookCatalog, rank, get}
use engineering_intelligence.Remediation.Policy.{
  ServiceAutonomy, ActionRequest, Reason, PolicyReason, PolicyDecision, policy_reason,
  uncertifiable, kill_switch_engaged, evaluator_required,
}
use engineering_intelligence.Remediation.Opa.{
  PolicyControlState, CertificationClaim, AutonomyContext, EvaluatedPolicyDecision, level_text,
  certification_denial, evaluate, as_policy_decision,
}
use engineering_intelligence.Remediation.Adapter.{Trace, ActionAdapter, consulted}
use engineering_intelligence.Remediation.Canary.{CanaryStrategy}

-- `PolicyEvaluator.evaluate`; a remote evaluator may answer differently at each call.
abbrev pub PolicyEvaluator : Type 0
PolicyEvaluator =
    Trace
    → Runbook
    → ServiceAutonomy
    → ActionRequest
    → Bool
    → PolicyControlState
    → AutonomyContext
    → EvaluatedPolicyDecision

-- The keyword arguments of `execute_control_loop`, the clock and the identifier of a lease.
pub record ControlLoopCall : Type 0 where
  pub policy : ServiceAutonomy
  pub request : ActionRequest
  pub evaluator : Option PolicyEvaluator
  pub approval_verified : Bool
  pub control : Option PolicyControlState
  pub certification : Option L4CertificationRecord
  pub autonomy_level : Option LevelClaim
  pub now : Option ℕ
  pub environ : Environ
  pub impacted_services : List String
  pub canary_strategy : Option CanaryStrategy
  pub clock : ℕ
  pub lease_id : String

abbrev pub or_default {ℓ} : {A : Type ℓ} → A → Option A → A
or_default default none = default
or_default default (some a) = a

abbrev pub moment : ControlLoopCall → ℕ
moment call = or_default call.clock call.now

scope_hash_or_blank : Library → Result ScopeError CertificationScope → String
scope_hash_or_blank lib (ok scope) = scope_hash lib scope
scope_hash_or_blank lib (raised e) = ""

claim_of : Option L4CertificationRecord → Option CertificationClaim
claim_of none = none
claim_of (some r) =
    some
      (record { scope_hash = r.scope_hash; inputs_hash = r.inputs_hash; expires_on = r.expires_on })

-- `_autonomy_context`
unfoldable pub autonomy_context :
    Library → AutonomyLevel → ControlLoopCall → Runbook → AutonomyContext
unfolding scope_hash_or_blank claim_of
autonomy_context lib level_ call runbook = record {
  declared = some (level_text level_);
  scope_hash = scope_hash_or_blank lib (certification_scope_for call.policy call.request runbook);
  now = lib.isoformat (moment call);
  certification = claim_of call.certification;
  policy_level = rank call.policy.level;
}

refusal_in :
    Library
    → Option L4CertificationRecord
    → Runbook
    → String
    → ℕ
    → Result ScopeError CertificationScope
    → Option Reason
refusal_in lib certification runbook revision now (raised e) = some (uncertifiable e)
refusal_in lib certification runbook revision now (ok scope) =
    certification_refusal lib certification (scope_hash lib scope)
      (material_inputs_hash_for lib scope runbook revision) now

-- `_certification_refusal`
unfoldable pub certification_refusal_for :
    Library → ControlLoopCall → Runbook → String → Option Reason
unfolding refusal_in
certification_refusal_for lib call runbook revision =
    refusal_in lib call.certification runbook revision (moment call)
      (certification_scope_for call.policy call.request runbook)

abbrev refused : Reason → PolicyDecision
refused reason = record { allowed = false; reason = reason }

abbrev blocked_by : Reason → ExecutionResult
blocked_by reason = stopped blocked (refused reason) (reason_text reason ∷ [])

-- `evaluator is None and opa_evaluator_required(environ)`
require_evaluator : Option PolicyEvaluator → Environ → Loop (Unit {0})
require_evaluator (some evaluator) environ host = (continue tt, host)
require_evaluator none environ host =
    (do
      required ← or_raise configuration (opa_evaluator_required environ)
      exit_if required (stopped denied (refused evaluator_required) []))
      host

pub consult_with :
    Option PolicyEvaluator
    → Library
    → Runbook
    → ControlLoopCall
    → AutonomyContext
    → Trace
    → EvaluatedPolicyDecision
consult_with (some evaluator) lib runbook call autonomy trace =
    evaluator trace runbook call.policy call.request call.approval_verified
      (or_default (record { audit_available = true; verification_defined = true }) call.control)
      autonomy
consult_with none lib runbook call autonomy trace =
    evaluate lib (lib.isoformat call.clock) runbook call.policy call.request call.approval_verified
      (or_default (record { audit_available = true; verification_defined = true }) call.control)
      (some autonomy)

unfoldable pub consult :
    Library → Runbook → ControlLoopCall → AutonomyContext → Loop EvaluatedPolicyDecision
unfolding consult_with
consult lib runbook call autonomy host = (
  continue (consult_with call.evaluator lib runbook call autonomy host.trace),
  record host { trace = consulted ∷ host.trace },
)

run_leased :
    ActionAdapter → Runbook → ControlLoopCall → PolicyDecision → LeaseOutcome → Loop ExecutionResult
run_leased adapter runbook call decision (locked_out refusal) host =
    (exit (stopped deferred decision (lockout refusal ∷ [])), host)
run_leased adapter runbook call decision lease host =
    let (result, trace) =
      run_execution_and_verify adapter runbook call.request decision call.canary_strategy
        host.trace in
    (continue result, record { trace = trace; leases = release_lease lease host.leases })

-- Presence, expiry and scope of the certification, before the evaluator is asked.
early_denial : Library → AutonomyLevel → AutonomyContext → Option PolicyReason
early_denial lib level_ autonomy =
    if leb 4 (rank level_) then certification_denial lib autonomy else none

late_refusal : Library → AutonomyLevel → ControlLoopCall → Runbook → String → Option Reason
late_refusal lib level_ call runbook revision =
    if leb 4 (rank level_) then certification_refusal_for lib call runbook revision else none

-- From the evaluator's decision on.
decided :
    Library
    → ActionAdapter
    → ControlLoopCall
    → Runbook
    → AutonomyLevel
    → EvaluatedPolicyDecision
    → Loop ExecutionResult
unfolding late_refusal run_leased
decided lib adapter call runbook level_ evaluated = do
  let decision = as_policy_decision evaluated
  exit_if (not decision.allowed) (stopped denied decision [])
  exit_when (late_refusal lib level_ call runbook evaluated.policy_revision) blocked_by
  refusal ← preflight adapter runbook call.request
  exit_when refusal (λ reason. stopped denied (refused reason) (reason_text reason ∷ []))
  lease ←
      acquire_concurrency_lease call.lease_id call.policy.service call.impacted_services
        (moment call)
  run_leased adapter runbook call decision lease

unfoldable pub execute_control_loop :
    Library → ActionAdapter → RunbookCatalog → ControlLoopCall → Loop ExecutionResult
unfolding require_evaluator early_denial decided
execute_control_loop lib adapter catalog call = do
  runbook ← or_raise catalog_error (get catalog call.request.runbook_id)
  exit_if
      (leb 3 (switch_level call.policy.level call.autonomy_level)
        && autonomy_kill_switch_engaged call.environ)
      (stopped blocked (refused kill_switch_engaged) (switch_text ∷ []))
  exit_when (resolve_level call.autonomy_level call.policy.level).1 blocked_by
  require_evaluator call.evaluator call.environ
  let level_ = (resolve_level call.autonomy_level call.policy.level).0
  let autonomy = autonomy_context lib level_ call runbook
  exit_when (early_denial lib level_ autonomy) (λ reason. blocked_by (policy_reason reason))
  evaluated ← consult lib runbook call autonomy
  decided lib adapter call runbook level_ evaluated
