-- ===== src/State/Store/Samples.antt =====
-- Data with which the state store is tested.
use engineering_intelligence.Base.{◌≡◌, refl, false, none, some, []}
use engineering_intelligence.Base.Result.{Result, ok}
use engineering_intelligence.Resilience.Scope.{aware}
use engineering_intelligence.State.Models.{WorkflowRecord, received}
use engineering_intelligence.State.Lifecycle.{
  WorkflowLifecycleEvent, is_identifier, is_plan_hash, validate, apply_to, apply_from, created,
}
use engineering_intelligence.State.Payload.{Library}
use engineering_intelligence.State.Store.{
  Tables, StoreError, WorkflowTransitionResult, get_workflow, write_workflow, assert_expected,
  receipt_for, receipt_of_event, insert_receipt, new_transition, transition, apply_workflow_event,
}
use engineering_intelligence.State.Store.Codec.{dumps_fields, loads_fields}
use engineering_intelligence.State.Store.Replay.{result_of}

abbrev pub lib : Library
lib = record {
  fromisoformat = λ s. some (aware 0);
  sha256 = λ s. s;
  dumps_event = λ event. event.action;
  dumps = dumps_fields;
  loads = loads_fields;
}

abbrev pub create : WorkflowLifecycleEvent
create = record {
  event_id = "event-1";
  idempotency_key = "create-1";
  workflow_id = "wf-1";
  tenant_id = "default";
  service_id = "payments";
  environment = "prod";
  kind = "incident-remediation";
  correlation_id = "corr-1";
  actor = "agent:incident";
  action = "receive";
  from_status = none;
  to_status = received;
  expected_version = none;
  plan_hash = none;
  causation_id = none;
  consequential = false;
  attributes = some "{}";
  occurred_at = "2026-01-01T00:00:00+00:00";
  schema_version = 1;
}

abbrev pub empty : Tables
empty = record { services = []; workflows = []; receipts = [] }

abbrev pub first : WorkflowRecord
first = record {
  workflow_id = "wf-1";
  service_id = "payments";
  environment = "prod";
  kind = "incident-remediation";
  status = received;
  correlation_id = "corr-1";
  plan_hash = none;
  version = 1;
  updated_at = "2026-01-01T00:00:00+00:00";
  tenant_id = "default";
}

abbrev pub outcome : Result StoreError WorkflowTransitionResult × Tables
outcome = apply_workflow_event lib create empty

pub create_is_accepted : outcome ≡ (ok (result_of false create first), outcome.1)
unfolding apply_workflow_event transition new_transition insert_receipt receipt_for receipt_of_event
    get_workflow assert_expected apply_to validate is_identifier is_plan_hash apply_from created
    write_workflow
create_is_accepted = refl
