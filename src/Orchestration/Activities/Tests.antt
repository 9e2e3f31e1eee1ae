-- ===== src/Orchestration/Activities/Tests.antt =====
-- The lifecycle boundary at concrete inputs.
use engineering_intelligence.Base.{◌≡◌, refl, true, false, some, []}
use engineering_intelligence.Base.Result.{ok, raised}
use engineering_intelligence.State.Audit
use engineering_intelligence.State.Audit.{AuditEvent, AuditRow, row_of, append, last_hash}
use engineering_intelligence.State.Audit.Chain.{Holds}
use engineering_intelligence.State.Models.{received, planned}
use engineering_intelligence.State.Lifecycle.{WorkflowLifecycleEvent}
use engineering_intelligence.State.Payload.{optional_text}
use engineering_intelligence.State.Store.{Tables, WorkflowTransitionResult, apply_workflow_event}
use engineering_intelligence.State.Store.Replay.{result_of}
use engineering_intelligence.State.Store.Later.{at_once, event_sent}
use engineering_intelligence.State.Store.Codec.{dumps_fields, loads-dumps}
use engineering_intelligence.State.Store.Samples.{
  lib, create, empty, first, outcome, create_is_accepted,
}
use engineering_intelligence.State.Audit.Samples
use engineering_intelligence.Orchestration.Activities.{
  audit_payload, Sink, Stores, export_incomplete, WorkflowLifecycleActivityResult, audit_event,
  after_export, activity_result, persist_workflow_lifecycle,
}
use engineering_intelligence.Orchestration.Activities.Bridge.{
  audit_log, retry_exports_same_event, acknowledged_is_audited,
}

-- A sink that cannot be reached.
abbrev down : Sink
down event log = (raised "connection refused", log)

abbrev start : Stores
start = record { tables = empty; log = [] }

state_is_kept :
    persist_workflow_lifecycle lib down create start
    ≡ (raised export_incomplete, record { tables = outcome.1; log = [] })
unfolding persist_workflow_lifecycle
state_is_kept = rw create_is_accepted refl

-- The tables after another event for the workflow was sent.
abbrev next : WorkflowLifecycleEvent
next = record create {
  event_id = "e-2";
  idempotency_key = "k-2";
  action = "plan";
  from_status = some received;
  to_status = planned;
  expected_version = some 1;
}

abbrev moved_on : Tables
moved_on = (apply_workflow_event lib next outcome.1).1

retry_exports_same_event_example :
    ((persist_workflow_lifecycle lib down create start).1.tables ≡ outcome.1)
    × (persist_workflow_lifecycle lib
          (audit_log Samples.lib)
          create
          (record { tables = moved_on; log = [] })
        ≡ after_export create
            (result_of true create first)
            moved_on
            (audit_log Samples.lib (audit_event lib create first) []))
retry_exports_same_event_example =
    retry_exports_same_event lib create loads-dumps down (audit_log Samples.lib) start []
      (result_of false create first) outcome.1 moved_on create_is_accepted (event_sent next at_once)

-- The event that the audit log returns for the creation of the workflow.
abbrev exported : AuditEvent
exported = record (audit_event lib create first) {
  event_hash = some (Audit.compute_event_hash Samples.lib (audit_event lib create first));
}

abbrev acknowledged : WorkflowLifecycleActivityResult
acknowledged =
    activity_result create (result_of false create first)
      (Audit.compute_event_hash Samples.lib (audit_event lib create first))

acknowledges :
    persist_workflow_lifecycle lib (audit_log Samples.lib) create start
    ≡ (ok acknowledged, (persist_workflow_lifecycle lib (audit_log Samples.lib) create start).1)
unfolding persist_workflow_lifecycle append last_hash audit_event dumps_fields audit_payload
    optional_text
acknowledges = rw create_is_accepted refl

acknowledged_is_audited_example :
    (transition : WorkflowTransitionResult) × (final : AuditEvent) × (row : AuditRow)
    × (apply_workflow_event lib create start.tables ≡ (
      ok transition,
      (persist_workflow_lifecycle lib (audit_log Samples.lib) create start).1.tables,
    ))
    × (row_of
          (audit_event lib create transition.record_).event_id
          (persist_workflow_lifecycle lib (audit_log Samples.lib) create start).1.log
        ≡ some row)
    × Holds Samples.lib Samples.lossless (audit_event lib create transition.record_) final row
    × (final.event_hash ≡ some acknowledged.audit_event_hash)
    × (acknowledged.workflow_version ≡ transition.record_.version)
acknowledged_is_audited_example =
    acknowledged_is_audited lib create Samples.lib Samples.lossless start acknowledged
      (persist_workflow_lifecycle lib (audit_log Samples.lib) create start).1 acknowledges
