-- ===== src/Remediation/Executor/Tests.antt =====
-- The control loop at concrete inputs: an approved L3 request and a certified L4 request.
use engineering_intelligence.Base.{◌≡◌, refl, ◌↔◌, ◌⊎◌, true, none, some, [], ◌∷◌, inl, inr}
use engineering_intelligence.Base.Result.{ok}
use engineering_intelligence.Base.Text.{reads_as, reads_as_upper, is_blank}
use engineering_intelligence.ControlPlane.Runtime.{Environ, control_plane_mode}
use engineering_intelligence.Resilience.Scope.{
  parse_instant, new_scope, scope_hash, material_inputs_hash,
}
use engineering_intelligence.Resilience.Certification.{
  certification_refusal, certification_scope_for, material_inputs_hash_for,
}
use engineering_intelligence.Remediation.Catalog.{
  AutonomyLevel, Runbook, approve_and_execute, bounded_autonomous, get,
}
use engineering_intelligence.Remediation.Policy.{PolicyDecision, authorized, policy_reason}
use engineering_intelligence.Remediation.Opa.{
  evaluate, effective_level, certification_denial, is_l4, as_policy_decision,
}
use engineering_intelligence.Remediation.Opa.Grants.{IsAuthorized, reviewed}
use engineering_intelligence.Remediation.Lock.{prune_expired}
use engineering_intelligence.Remediation.Adapter.{Made, executed}
use engineering_intelligence.Remediation.Executor.{
  ControlLoopCall, execute_control_loop, autonomy_context, consult, preflight,
  acquire_concurrency_lease, release_lease, run_execution_and_verify, resolve_level,
  claimed_level_value, autonomy_kill_switch_engaged, opa_evaluator_required,
  certification_refusal_for, succeeded, rolled_back_,
}
use engineering_intelligence.Remediation.Executor.Authority.{
  HasAuthority, started, level_for, control_for, execution-HasAuthority,
  local_execution-IsAuthorized,
}
use engineering_intelligence.Remediation.Executor.Outcomes.{
  IsVerified, IsRolledBack, action_outcomes, control_loop_returns_lease,
}
use engineering_intelligence.Remediation.Samples.{
  restart, items, policy_at, request, library, certificate, healthy, unhealthy,
}

abbrev unset : Environ
unset name = none

abbrev call_at : AutonomyLevel → ControlLoopCall
call_at level = record {
  policy = policy_at level;
  request = request;
  evaluator = none;
  approval_verified = true;
  control = none;
  certification = some certificate;
  autonomy_level = none;
  now = none;
  environ = unset;
  impacted_services = "cart" ∷ [];
  canary_strategy = none;
  clock = 100;
  lease_id = "lease-1";
}

executes_autonomously :
    Made
      (executed "aks.restart.workload")
      (execute_control_loop library healthy items
        (call_at bounded_autonomous)
        (started none)).1.trace
unfolding execute_control_loop consult preflight acquire_concurrency_lease release_lease
    run_execution_and_verify resolve_level claimed_level_value autonomy_kill_switch_engaged
    opa_evaluator_required control_plane_mode reads_as reads_as_upper is_blank evaluate
    effective_level certification_denial is_l4 as_policy_decision autonomy_context
    certification_refusal_for certification_refusal certification_scope_for new_scope
    material_inputs_hash_for material_inputs_hash scope_hash parse_instant get
executes_autonomously = inr (inl refl)

execution-HasAuthority_example : HasAuthority library items (call_at bounded_autonomous)
execution-HasAuthority_example =
    execution-HasAuthority library healthy items (call_at bounded_autonomous) none
      "aks.restart.workload" executes_autonomously

local_execution-IsAuthorized_example :
    (runbook : Runbook) × (get items "aks.restart.workload" ≡ ok runbook)
    × IsAuthorized library runbook
        (policy_at bounded_autonomous)
        request
        true
        (control_for (call_at bounded_autonomous))
        (reviewed (policy_at bounded_autonomous) (
          autonomy_context library
            (level_for (call_at bounded_autonomous))
            (call_at bounded_autonomous)
            runbook))
local_execution-IsAuthorized_example =
    local_execution-IsAuthorized library healthy items (call_at bounded_autonomous) none
      "aks.restart.workload" refl executes_autonomously

abbrev decision : PolicyDecision
decision = record { allowed = true; reason = policy_reason authorized }

action_outcomes_example :
    ((run_execution_and_verify unhealthy restart request decision none []).0.status ≡ succeeded
      ↔ IsVerified unhealthy restart request decision)
    × ((run_execution_and_verify unhealthy restart request decision none []).0.status ≡ rolled_back_
        ↔ IsRolledBack unhealthy restart request decision)
action_outcomes_example = action_outcomes unhealthy restart request decision

rolls_back :
    (run_execution_and_verify unhealthy restart request decision none []).0.status ≡ rolled_back_
unfolding run_execution_and_verify
rolls_back = refl

control_loop_returns_lease_example :
    let after =
      (execute_control_loop library healthy items
        (call_at approve_and_execute)
        (started (some []))).1.leases in
    (after ≡ some []) ⊎ (after ≡ some (prune_expired 100 []))
control_loop_returns_lease_example =
    control_loop_returns_lease library healthy (call_at approve_and_execute) []
      (unfold prune_expired in refl) items
