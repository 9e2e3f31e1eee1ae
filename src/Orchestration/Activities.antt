-- ===== src/Orchestration/Activities.antt =====
-- orchestration/control_plane_activities.py: the boundary that persists a lifecycle event with its audit
-- record. The audit log is any sink; what the function does with its exceptions is the same for each.
pub mod Bridge
pub mod Evidence
pub mod Steps
pub mod Sends
pub mod Refused
pub mod Valid
mod Tests
use Prim.Native.String.{◌++◌}
use engineering_intelligence.Base.{
  ℕ, String, Bool, Option, none, some, List, [], ◌∷◌, str_eq, if◌then◌else◌,
}
use engineering_intelligence.Base.Dict.{Dict}
use engineering_intelligence.Base.Result.{Result, ok, raised}
use engineering_intelligence.State.Models.{WorkflowRecord, WorkflowStatus, status_value}
use engineering_intelligence.State.Lifecycle.{WorkflowLifecycleEvent}
use engineering_intelligence.State.Payload.{
  Library, Json, text, number, boolean, null, optional_text,
}
use engineering_intelligence.State.Audit.{AuditEvent, Log}
use engineering_intelligence.State.Store.{
  Tables, StoreError, WorkflowTransitionResult, apply_workflow_event, fingerprint,
}

-- `AuditLog.append`, of a sink that holds a log.
abbrev pub Sink : Type 0
Sink = AuditEvent → Log → Result String AuditEvent × Log

-- The state store and the audit log.
pub record Stores : Type 0 where
  pub tables : Tables
  pub log : Log

pub record WorkflowLifecycleActivityResult : Type 0 where
  pub workflow_id : String
  pub workflow_version : ℕ
  pub status : String
  pub event_id : String
  pub idempotency_key : String
  pub state_replayed : Bool
  pub audit_event_hash : String

-- What the boundary raises: an error of the store, or one of the two texts of `AuditExportFailure`.
pub data BridgeError : Type 0 where
  store_error : StoreError → BridgeError
  export_incomplete unverifiable : BridgeError

status_text : Option WorkflowStatus → Json
status_text none = null
status_text (some status) = text (status_value status)

optional_number : Option ℕ → Json
optional_number none = null
optional_number (some n) = number n

-- The payload of an audit event in the order of its keys; the attributes are carried as JSON text.
unfoldable pub audit_payload : Library → WorkflowLifecycleEvent → WorkflowRecord → Dict Json
unfolding status_text optional_number
audit_payload lib event record_ =
    ("attributes", optional_text event.attributes)
    ∷ ("causation_id", optional_text event.causation_id)
    ∷ ("consequential", boolean event.consequential)
    ∷ ("environment", text event.environment)
    ∷ ("event_fingerprint", text (fingerprint lib event))
    ∷ ("event_id", text event.event_id)
    ∷ ("expected_version", optional_number event.expected_version)
    ∷ ("from_status", status_text event.from_status)
    ∷ ("idempotency_key", text event.idempotency_key)
    ∷ ("kind", text event.kind)
    ∷ ("plan_hash", optional_text record_.plan_hash)
    ∷ ("resulting_version", number record_.version)
    ∷ ("schema_version", number event.schema_version)
    ∷ ("service_id", text event.service_id)
    ∷ ("tenant_id", text event.tenant_id)
    ∷ ("to_status", text (status_value event.to_status))
    ∷ []

-- `_audit_event`
unfoldable pub audit_event : Library → WorkflowLifecycleEvent → WorkflowRecord → AuditEvent
audit_event lib event record_ = record {
  event_id = "workflow-lifecycle:" ++ event.event_id;
  correlation_id = event.correlation_id;
  actor = event.actor;
  action = event.action;
  resource = event.workflow_id;
  payload = text (lib.dumps (audit_payload lib event record_));
  occurred_at = event.occurred_at;
  previous_hash = none;
  event_hash = none;
}

abbrev pub activity_result :
    WorkflowLifecycleEvent → WorkflowTransitionResult → String → WorkflowLifecycleActivityResult
activity_result event transition hash = record {
  workflow_id = transition.record_.workflow_id;
  workflow_version = transition.record_.version;
  status = status_value transition.record_.status;
  event_id = event.event_id;
  idempotency_key = event.idempotency_key;
  state_replayed = transition.replayed;
  audit_event_hash = hash;
}

-- `if not exported.event_hash`
abbrev pub with_hash :
    WorkflowLifecycleEvent
    → WorkflowTransitionResult
    → Option String
    → Result BridgeError WorkflowLifecycleActivityResult
with_hash event transition none = raised unverifiable
with_hash event transition (some hash) =
    if str_eq hash "" then raised unverifiable else ok (activity_result event transition hash)

abbrev pub after_export :
    WorkflowLifecycleEvent
    → WorkflowTransitionResult
    → Tables
    → Result String AuditEvent × Log
    → Result BridgeError WorkflowLifecycleActivityResult × Stores
after_export event transition tables (raised why, log) =
    (raised export_incomplete, record { tables = tables; log = log })
after_export event transition tables (ok exported, log) =
    (with_hash event transition exported.event_hash, record { tables = tables; log = log })

abbrev pub after_state :
    Library
    → Sink
    → WorkflowLifecycleEvent
    → Log
    → Result StoreError WorkflowTransitionResult × Tables
    → Result BridgeError WorkflowLifecycleActivityResult × Stores
after_state lib sink event log (raised e, tables) =
    (raised (store_error e), record { tables = tables; log = log })
after_state lib sink event log (ok transition, tables) =
    after_export event transition tables (sink (audit_event lib event transition.record_) log)

unfoldable pub persist_workflow_lifecycle :
    Library
    → Sink
    → WorkflowLifecycleEvent
    → Stores
    → Result BridgeError WorkflowLifecycleActivityResult × Stores
persist_workflow_lifecycle lib sink event stores =
    after_state lib sink event stores.log (apply_workflow_event lib event stores.tables)
