-- ===== src/Remediation/Canary.antt =====
-- remediation/canary.py: canary first, then the fleet. The texts of steps and errors are constructors
-- with what the texts name.
pub mod Safety
mod Tests
use Prim.Native.String
use engineering_intelligence.Base.{
  ℕ, String, Bool, true, false, Option, none, some, List, [], ◌∷◌, ◌++◌, if◌then◌else◌,
}
use engineering_intelligence.Base.Result.{Result, ok, raised}
use engineering_intelligence.Remediation.Catalog.{Runbook}
use engineering_intelligence.Remediation.Policy.{ActionRequest}
use engineering_intelligence.Remediation.Adapter.{
  Trace, ActionAdapter, executed, verified, rolled_back, truthy,
}

-- `soak_seconds`, a float, is carried in microseconds; nothing reads it.
pub record CanaryStrategy : Type 0 where
  pub canary_percentage : ℕ
  pub soak : ℕ
  pub canary_verify_signal : String
  pub full_verify_signal : String

abbrev pub default_strategy : CanaryStrategy
default_strategy = record {
  canary_percentage = 10;
  soak = 30000000;
  canary_verify_signal = "deployment.canary_ready";
  full_verify_signal = "deployment.ready_replicas";
}

pub data Phase : Type 0 where
  canary_deploy canary_verify canary_abort fleet_promote fleet_verify fleet_rollback : Phase

pub data StepStatus : Type 0 where
  succeeded failed degraded completed : StepStatus

pub data Details : Type 0 where
  reference failure : String → Details
  signal_result : String → Bool → Details
  rollback_ref : Option String → Details

pub record CanaryStep : Type 0 where
  pub phase : Phase
  pub status : StepStatus
  pub details : Details

pub data CanaryStatus : Type 0 where
  aborted failed_rollout promoted : CanaryStatus

pub data CanaryError : Type 0 where
  deployment_failed promotion_failed : String → CanaryError
  canary_unhealthy fleet_unhealthy : CanaryError

pub record CanaryExecutionResult : Type 0 where
  pub status : CanaryStatus
  pub canary_verified : Bool
  pub fleet_verified : Bool
  pub steps : List CanaryStep
  pub error : Option CanaryError

abbrev pub canary_runbook_id : Runbook → String
canary_runbook_id runbook = String.◌++◌ runbook.id ".canary"

-- A verification that raises counts as not verified.
verification : Result String Bool → Bool
verification (ok healthy) = healthy
verification (raised exc) = false

verify_step : Phase → String → Result String Bool → CanaryStep
verify_step phase signal (ok healthy) = record {
  phase = phase;
  status = if healthy then succeeded else degraded;
  details = signal_result signal healthy;
}
verify_step phase signal (raised exc) = record {
  phase = phase;
  status = failed;
  details = failure exc;
}

finished : CanaryStatus → Bool → Bool → List CanaryStep → Option CanaryError → CanaryExecutionResult
finished status canary fleet steps error = record {
  status = status;
  canary_verified = canary;
  fleet_verified = fleet;
  steps = steps;
  error = error;
}

failed_step : Phase → Result String String → List CanaryStep
failed_step phase (ok ref) = []
failed_step phase (raised exc) =
    record { phase = phase; status = failed; details = failure exc } ∷ []

returned : Result String String → Option String
returned (ok ref) = some ref
returned (raised exc) = none

module _ (adapter : ActionAdapter) (runbook : Runbook) (request : ActionRequest) where
  -- `if runbook.rollback_id: try: rollback(...)`: the reference, the steps of a failure, the calls.
  rollback_if : Phase → Option String → Trace → Option String × List CanaryStep × Trace
  unfolding failed_step returned
  rollback_if phase none trace = (none, [], trace)
  rollback_if phase (some id) trace =
      let answer = adapter.rollback trace id request in
      (returned answer, failed_step phase answer, rolled_back id ∷ trace)

  -- Phase 3a.
  abort_canary : List CanaryStep → Trace → CanaryExecutionResult × Trace
  unfolding rollback_if finished
  abort_canary steps trace =
      let (ref, failures, after) = rollback_if canary_abort (truthy runbook.rollback_id) trace in
      let last : CanaryStep = record {
        phase = canary_abort;
        status = completed;
        details = rollback_ref ref;
      } in
      (
        finished aborted false false (steps ++ (failures ++ (last ∷ []))) (some canary_unhealthy),
        after,
      )

  -- Phase 4, after the verification.
  conclude : Bool → List CanaryStep → Trace → CanaryExecutionResult × Trace
  unfolding rollback_if finished
  conclude true steps trace = (finished promoted true true steps none, trace)
  conclude false steps trace =
      let (ref, failures, after) = rollback_if fleet_rollback (truthy runbook.rollback_id) trace in
      (finished failed_rollout true false (steps ++ failures) (some fleet_unhealthy), after)

  verify_fleet : CanaryStrategy → List CanaryStep → Trace → CanaryExecutionResult × Trace
  unfolding conclude verification verify_step
  verify_fleet strategy steps trace =
      let signal = strategy.full_verify_signal in
      let answer = adapter.verify trace signal request in
      conclude (verification answer) (steps ++ (verify_step fleet_verify signal answer ∷ []))
        (verified signal ∷ trace)

  promoted_fleet :
      CanaryStrategy
      → Result String String
      → List CanaryStep
      → Trace
      → CanaryExecutionResult × Trace
  unfolding verify_fleet finished
  promoted_fleet strategy (raised exc) steps trace = (
    finished failed_rollout true false
        (steps ++ (record { phase = fleet_promote; status = failed; details = failure exc } ∷ []))
        (some (promotion_failed exc)),
    trace,
  )
  promoted_fleet strategy (ok ref) steps trace =
      verify_fleet strategy
        (steps
          ++ (record { phase = fleet_promote; status = succeeded; details = reference ref } ∷ []))
        trace

  -- Phase 3, after the verification of the canary.
  promote : Bool → CanaryStrategy → List CanaryStep → Trace → CanaryExecutionResult × Trace
  unfolding abort_canary promoted_fleet
  promote false strategy steps trace = abort_canary steps trace
  promote true strategy steps trace =
      promoted_fleet strategy (adapter.execute trace runbook.id request) steps
        (executed runbook.id ∷ trace)

  verify_canary : CanaryStrategy → List CanaryStep → Trace → CanaryExecutionResult × Trace
  unfolding promote verification verify_step
  verify_canary strategy steps trace =
      let signal = strategy.canary_verify_signal in
      let answer = adapter.verify trace signal request in
      promote (verification answer) strategy
        (steps ++ (verify_step canary_verify signal answer ∷ [])) (verified signal ∷ trace)

  deployed_canary : CanaryStrategy → Result String String → Trace → CanaryExecutionResult × Trace
  unfolding verify_canary finished
  deployed_canary strategy (raised exc) trace = (
    finished aborted false false
        (record { phase = canary_deploy; status = failed; details = failure exc } ∷ [])
        (some (deployment_failed exc)),
    trace,
  )
  deployed_canary strategy (ok ref) trace =
      verify_canary strategy
        (record { phase = canary_deploy; status = succeeded; details = reference ref } ∷ []) trace

  -- The strategy of the call, or the default one, has been chosen.
  unfoldable pub execute_progressive : CanaryStrategy → Trace → CanaryExecutionResult × Trace
  unfolding deployed_canary
  execute_progressive strategy trace =
      let id = canary_runbook_id runbook in
      deployed_canary strategy (adapter.execute trace id request) (executed id ∷ trace)
