-- ===== src/Remediation/Executor/Action.antt =====
-- The preflight, the lease, and the action with its verification and rollback, of
-- remediation/executor.py.
use engineering_intelligence.Base.{
  ℕ, String, Bool, true, false, Option, none, some, List, [], ◌∷◌, ◌++◌,
}
use engineering_intelligence.Base.Result.{Result, ok, raised}
use engineering_intelligence.Remediation.Catalog.{Runbook}
use engineering_intelligence.Remediation.Policy.{
  ActionRequest, PolicyDecision, Reason, preconditions_failed, preflight_refused, preflight_raised,
}
use engineering_intelligence.Remediation.Lock.{LockLease, LockoutRefusal, Leases, acquire, release}
use engineering_intelligence.Remediation.Adapter.{
  Trace, PreflightAnswer, verdict, explained, ActionAdapter, preflighted, executed, verified,
  rolled_back, truthy,
}
use engineering_intelligence.Remediation.Canary.{
  CanaryStrategy, CanaryStatus, CanaryError, aborted, failed_rollout, promoted, execute_progressive,
}
use engineering_intelligence.Remediation.Executor.Returns.{
  Status, succeeded, rolled_back_, escalate, ErrorText, canary_error, execution_failed,
  verification_failed, rollback_failed, ExecutionResult, continue, Loop,
}

preflight_reason : Result String PreflightAnswer → Option Reason
preflight_reason (raised exc) = some (preflight_raised exc)
preflight_reason (ok (explained true reason)) = none
preflight_reason (ok (explained false reason)) = some (preflight_refused reason)
preflight_reason (ok (verdict true)) = none
preflight_reason (ok (verdict false)) = some preconditions_failed

preflight_with :
    Option (Trace → Runbook → ActionRequest → Result String PreflightAnswer)
    → Runbook
    → ActionRequest
    → Loop (Option Reason)
unfolding preflight_reason
preflight_with none runbook request host = (continue none, host)
preflight_with (some checker) runbook request host = (
  continue (preflight_reason (checker host.trace runbook request)),
  record host { trace = preflighted ∷ host.trace },
)

-- `_preflight`: the reason of a refusal, or none.
unfoldable pub preflight : ActionAdapter → Runbook → ActionRequest → Loop (Option Reason)
unfolding preflight_with
preflight adapter = preflight_with adapter.preflight

-- What the lease step hands on: a lease, if there is a manager, or a refusal.
pub data LeaseOutcome : Type 0 where
  unmanaged : LeaseOutcome
  granted : LockLease → LeaseOutcome
  locked_out : LockoutRefusal → LeaseOutcome

lease_outcome : Result LockoutRefusal LockLease → LeaseOutcome
lease_outcome (ok lease) = granted lease
lease_outcome (raised refusal) = locked_out refusal

-- `ttl_seconds` is left at its default of 300 seconds.
abbrev pub default_ttl : ℕ
default_ttl = 300000000

lease_from : String → String → List String → ℕ → Option Leases → LeaseOutcome × Option Leases
unfolding lease_outcome
lease_from lease_id service_id impacted moment none = (unmanaged, none)
lease_from lease_id service_id impacted moment (some leases) =
    let (outcome, after) = acquire lease_id service_id impacted default_ttl moment leases in
    (lease_outcome outcome, some after)

-- `_acquire_concurrency_lease`
unfoldable pub acquire_concurrency_lease : String → String → List String → ℕ → Loop LeaseOutcome
unfolding lease_from
acquire_concurrency_lease lease_id service_id impacted moment host =
    let (outcome, after) = lease_from lease_id service_id impacted moment host.leases in
    (continue outcome, record host { leases = after })

-- The `finally` of the loop.
unfoldable pub release_lease : LeaseOutcome → Option Leases → Option Leases
release_lease (granted lease) (some leases) = some (release lease leases).1
release_lease (granted lease) none = none
release_lease _ leases = leases

ended : Status → PolicyDecision → Option String → Bool → List ErrorText → ExecutionResult
ended status decision ref verified_ error = record {
  status = status;
  policy = decision;
  execution_ref = ref;
  verified = verified_;
  rollback_ref = none;
  error = error;
}

canary_errors : Option CanaryError → List ErrorText
canary_errors none = []
canary_errors (some e) = canary_error e ∷ []

canary_result : CanaryStatus → Option CanaryError → PolicyDecision → ExecutionResult
unfolding ended canary_errors
canary_result promoted error decision =
    ended succeeded decision (some "canary-fleet-promoted") true []
canary_result aborted error decision =
    ended rolled_back_ decision (some "canary-aborted") false (canary_errors error)
canary_result failed_rollout error decision =
    ended escalate decision (some "canary-failed") false (canary_errors error)

verification_errors : Result String Bool → List ErrorText
verification_errors (ok healthy) = []
verification_errors (raised exc) = verification_failed exc ∷ []

rollback_errors : Result String String → List ErrorText
rollback_errors (ok ref) = []
rollback_errors (raised exc) = rollback_failed exc ∷ []

rollback_reference : Result String String → Option String
rollback_reference (ok ref) = some ref
rollback_reference (raised exc) = none

-- `"rolled_back" if rollback_ref else "escalate"`
status_after : Option String → Status
status_after none = escalate
status_after (some ref) = rolled_back_

module _ (adapter : ActionAdapter) (runbook : Runbook) (request : ActionRequest)
    (decision : PolicyDecision) where
  unverified : Option String → Option String → List ErrorText → ExecutionResult
  unfolding status_after
  unverified ref rollback errors = record {
    status = status_after (truthy rollback);
    policy = decision;
    execution_ref = ref;
    verified = false;
    rollback_ref = rollback;
    error = errors;
  }

  roll_back : String → Option String → List ErrorText → Trace → ExecutionResult × Trace
  unfolding unverified rollback_errors rollback_reference
  roll_back ref none errors trace = (unverified (some ref) none errors, trace)
  roll_back ref (some id) errors trace =
      let answer = adapter.rollback trace id request in
      (
        unverified (some ref) (rollback_reference answer) (errors ++ rollback_errors answer),
        rolled_back id ∷ trace,
      )

  settle : String → Result String Bool → Trace → ExecutionResult × Trace
  unfolding roll_back ended verification_errors
  settle ref (ok true) trace = (ended succeeded decision (some ref) true [], trace)
  settle ref (ok false) trace = roll_back ref (truthy runbook.rollback_id) [] trace
  settle ref (raised exc) trace =
      roll_back ref (truthy runbook.rollback_id) (verification_errors (raised exc)) trace

  executed_action : Result String String → Trace → ExecutionResult × Trace
  unfolding settle ended
  executed_action (raised exc) trace =
      (ended escalate decision none false (execution_failed exc ∷ []), trace)
  executed_action (ok ref) trace =
      settle ref (adapter.verify trace runbook.verify_signal request)
        (verified runbook.verify_signal ∷ trace)

  -- `_run_execution_and_verify`
  unfoldable pub run_execution_and_verify : Option CanaryStrategy → Trace → ExecutionResult × Trace
  unfolding canary_result executed_action
  run_execution_and_verify (some strategy) trace =
      let (result, after) = execute_progressive adapter runbook request strategy trace in
      (canary_result result.status result.error decision, after)
  run_execution_and_verify none trace =
      executed_action (adapter.execute trace runbook.id request) (executed runbook.id ∷ trace)
