-- ===== src/State/Lifecycle/Tests.antt =====
-- The lifecycle at concrete inputs.
use engineering_intelligence.Base.{◌≡◌, ◌≤◌, refl, false, none, some, [], ◌∷◌, length}
use engineering_intelligence.Base.Result.{raised}
use engineering_intelligence.Resilience.Scope.{aware}
use engineering_intelligence.State.Models.{
  WorkflowRecord, received, planned, waiting_approval, executing, verifying, succeeded, diagnosing,
}
use engineering_intelligence.State.Lifecycle.{
  WorkflowLifecycleEvent, transition_not_allowed, unexpected_status, is_identifier, is_plan_hash,
  validate, apply_to, apply_from, advanced, or_else,
}
use engineering_intelligence.State.Lifecycle.Transitions.{
  Chain-bounded, Passes, planned_before_executing, Follows, apply_to-Follows,
}

abbrev plan : WorkflowLifecycleEvent
plan = record {
  event_id = "event-2";
  idempotency_key = "plan-1";
  workflow_id = "wf-1";
  tenant_id = "default";
  service_id = "payments";
  environment = "prod";
  kind = "incident-remediation";
  correlation_id = "corr-1";
  actor = "agent:incident";
  action = "plan";
  from_status = some received;
  to_status = planned;
  expected_version = some 1;
  plan_hash = none;
  causation_id = none;
  consequential = false;
  attributes = some "{}";
  occurred_at = "2026-01-01T00:00:00+00:00";
  schema_version = 1;
}

abbrev workflow : WorkflowRecord
workflow = record {
  workflow_id = "wf-1";
  service_id = "payments";
  environment = "prod";
  kind = "incident-remediation";
  status = received;
  correlation_id = "corr-1";
  plan_hash = none;
  version = 1;
  updated_at = "2026-01-01T00:00:00+00:00";
  tenant_id = "default";
}

spaced_identifier : is_identifier "two words" ≡ false
unfolding is_identifier
spaced_identifier = refl

short_hash : is_plan_hash "sha256:abc" ≡ false
unfolding is_plan_hash
short_hash = refl

skip_planning :
    validate (λ s. some (aware 0)) (record plan { to_status = executing })
    ≡ raised (transition_not_allowed (some received) executing)
unfolding validate is_identifier is_plan_hash
skip_planning = refl

stale_status :
    apply_to (λ s. some (aware 0)) plan (some (record workflow { status = diagnosing }))
    ≡ raised (unexpected_status diagnosing received)
unfolding apply_to validate is_identifier is_plan_hash apply_from
stale_status = refl

Chain-bounded_example : length (received ∷ planned ∷ executing ∷ verifying ∷ succeeded ∷ []) ≤ 7
Chain-bounded_example =
    Chain-bounded (received ∷ planned ∷ executing ∷ verifying ∷ succeeded ∷ [])
      (refl, (refl, (refl, (refl, (refl, tt)))))

planned_before_executing_example : Passes planned (received ∷ planned ∷ waiting_approval ∷ [])
planned_before_executing_example =
    planned_before_executing (received ∷ planned ∷ waiting_approval ∷ []) (verifying ∷ [])
      (refl, (refl, (refl, (refl, (refl, tt)))))

apply_to-Follows_example : Follows plan workflow (record workflow { status = planned })
apply_to-Follows_example =
    apply_to-Follows (λ s. some (aware 0)) plan workflow (record workflow { status = planned })
      (unfold apply_to validate is_identifier is_plan_hash apply_from advanced or_else in refl)
