-- ===== src/Orchestration/Activities/Bridge.antt =====
-- The state and the audit record of a lifecycle event in orchestration/control_plane_activities.py.
use engineering_intelligence.Base.{
  ◌≡◌, refl, sym, ap, ◌∙◌, inl, inr, String, true, Option, none, some, arith, str_eq, Bool-cases,
}
use engineering_intelligence.Base.Result.{Result, ok, raised}
use engineering_intelligence.State.Lifecycle.{WorkflowLifecycleEvent}
use engineering_intelligence.State.Payload.{Library, IsLossless}
use engineering_intelligence.State.Audit.{
  AuditEvent, AuditRow, AuditError, conflict, unreadable, Log, append, row_of,
}
use engineering_intelligence.State.Audit
use engineering_intelligence.State.Audit.Chain
use engineering_intelligence.State.Audit.Chain.{Holds, appended}
use engineering_intelligence.State.Store.{
  Tables, StoreError, WorkflowTransitionResult, apply_workflow_event,
}
use engineering_intelligence.State.Store.Replay.{result_of}
use engineering_intelligence.State.Store.Later.{Later, retry_gives_same_record}
use engineering_intelligence.Orchestration.Activities.{
  Sink, Stores, WorkflowLifecycleActivityResult, audit_event, activity_result, with_hash,
  after_export, after_state, persist_workflow_lifecycle,
}

-- The audit log of state/audit.py as a sink.
abbrev pub as_text : Result AuditError AuditEvent → Result String AuditEvent
as_text (raised conflict) = raised "AuditConflict"
as_text (raised unreadable) = raised "unreadable payload"
as_text (ok event) = ok event

abbrev pub as_exported : Result AuditError AuditEvent × Log → Result String AuditEvent × Log
as_exported (answer, log) = (as_text answer, log)

abbrev pub audit_log : Audit.Library → Sink
audit_log alib event log = as_exported (append alib event log)

by_append :
    (appending : Result AuditError AuditEvent × Log) (final : AuditEvent) (after : Log)
    → as_exported appending ≡ (ok final, after)
    → appending ≡ (ok final, after)
by_append (raised conflict, log) final after h = absurd (ground arith)
by_append (raised unreadable, log) final after h = absurd (ground arith)
by_append (ok event, log) final after h = cc

audit_log-returned :
    (alib : Audit.Library) (event final : AuditEvent) (log after : Log)
    → audit_log alib event log ≡ (ok final, after)
    → append alib event log ≡ (ok final, after)
audit_log-returned alib event final log after h = by_append (append alib event log) final after h

with_hash-returned :
    (event : WorkflowLifecycleEvent) (transition : WorkflowTransitionResult) (hash : Option String)
    (result : WorkflowLifecycleActivityResult)
    → with_hash event transition hash ≡ ok result
    → (hash ≡ some result.audit_event_hash) × (result.workflow_version ≡ transition.record_.version)
with_hash-returned event transition none result h = cc
with_hash-returned event transition (some hash) result h = elim (Bool-cases (str_eq hash "")) [
  | inl blank ↦ absurd (ground arith)
  | inr given ↦
      let is : activity_result event transition hash ≡ result = ground arith in
      (rw (sym is) refl, rw (sym is) refl)
]

after_export-tables :
    (event : WorkflowLifecycleEvent) (transition : WorkflowTransitionResult) (tables : Tables)
    (exported : Result String AuditEvent × Log)
    → (after_export event transition tables exported).1.tables ≡ tables
after_export-tables event transition tables (raised why, log) = refl
after_export-tables event transition tables (ok final, log) = refl

after_export-returned :
    (event : WorkflowLifecycleEvent) (transition : WorkflowTransitionResult) (tables : Tables)
    (exported : Result String AuditEvent × Log) (result : WorkflowLifecycleActivityResult)
    (after : Stores)
    → after_export event transition tables exported ≡ (ok result, after)
    → (final : AuditEvent) × (exported ≡ (ok final, after.log))
      × (tables ≡ after.tables)
      × (final.event_hash ≡ some result.audit_event_hash)
      × (result.workflow_version ≡ transition.record_.version)
after_export-returned event transition tables (raised why, log) result after h =
    absurd (ground arith)
after_export-returned event transition tables (ok final, log) result after h =
    let parts : (with_hash event transition final.event_hash ≡ ok result)
        × (record { tables = tables; log = log } ≡ after) =
      (cc, cc) in
    let known = with_hash-returned event transition final.event_hash result parts.0 in
    (final, rw (sym parts.1) refl, rw (sym parts.1) refl, known.0, known.1)

pub after_state-returned :
    (lib : Library) (sink : Sink) (event : WorkflowLifecycleEvent) (log : Log)
    (state : Result StoreError WorkflowTransitionResult × Tables)
    (result : WorkflowLifecycleActivityResult) (after : Stores)
    → after_state lib sink event log state ≡ (ok result, after)
    → (transition : WorkflowTransitionResult) × (final : AuditEvent) × (state
        ≡ (ok transition, after.tables))
      × (sink (audit_event lib event transition.record_) log ≡ (ok final, after.log))
      × (final.event_hash ≡ some result.audit_event_hash)
      × (result.workflow_version ≡ transition.record_.version)
after_state-returned lib sink event log (raised e, tables) result after h = absurd (ground arith)
after_state-returned lib sink event log (ok transition, tables) result after h =
    let known =
      after_export-returned event transition tables
        (sink (audit_event lib event transition.record_) log) result after h in
    (transition, known.0, ap (λ t. (ok transition, t)) known.2, known.1, known.3, known.4)

module _ (lib : Library) (event : WorkflowLifecycleEvent) where
  persist-accepted :
      (sink : Sink) (stores : Stores) (transition : WorkflowTransitionResult) (tables : Tables)
      → apply_workflow_event lib event stores.tables ≡ (ok transition, tables)
      → persist_workflow_lifecycle lib sink event stores
        ≡ after_export event transition tables
            (sink (audit_event lib event transition.record_) stores.log)
  unfolding persist_workflow_lifecycle
  persist-accepted sink stores transition tables h = ap (after_state lib sink event stores.log) h

  -- After the state of an event was committed, whatever became of its audit record and whatever calls of the
  -- store came after, a later call for the event leaves the tables as they are, hands the sink at hand the
  -- same audit event, and answers by that sink as the first call would have, but for the mark that the state
  -- was replayed. JSON is read as it was written.
  pub retry_exports_same_event :
      (lossless : IsLossless lib) (first retry : Sink) (stores : Stores) (log : Log)
      (transition : WorkflowTransitionResult) (tables later : Tables)
      → apply_workflow_event lib event stores.tables ≡ (ok transition, tables)
      → Later lib tables later
      → ((persist_workflow_lifecycle lib first event stores).1.tables ≡ tables)
        × (persist_workflow_lifecycle lib retry event (record { tables = later; log = log })
            ≡ after_export event
                (result_of true event transition.record_)
                later
                (retry (audit_event lib event transition.record_) log))
  retry_exports_same_event lossless first retry stores log transition tables later h calls = (
    ap (λ r. r.1.tables) (persist-accepted first stores transition tables h)
        ∙ after_export-tables event transition tables
            (first (audit_event lib event transition.record_) stores.log),
    persist-accepted retry (record { tables = later; log = log })
        (result_of true event transition.record_) later
        (retry_gives_same_record lib lossless event stores.tables transition tables later h calls),
  )

  -- A call that returns has its state committed and, in the log, under the event's id, an audit record of the
  -- identity of the event, with the hash that is returned. JSON is read as it was written.
  pub acknowledged_is_audited :
      (alib : Audit.Library) (lossless : Chain.IsLossless alib) (stores : Stores)
      (result : WorkflowLifecycleActivityResult) (after : Stores)
      → persist_workflow_lifecycle lib (audit_log alib) event stores ≡ (ok result, after)
      → (transition : WorkflowTransitionResult) × (final : AuditEvent) × (row : AuditRow)
        × (apply_workflow_event lib event stores.tables ≡ (ok transition, after.tables))
        × (row_of (audit_event lib event transition.record_).event_id after.log ≡ some row)
        × Holds alib lossless (audit_event lib event transition.record_) final row
        × (final.event_hash ≡ some result.audit_event_hash)
        × (result.workflow_version ≡ transition.record_.version)
  unfolding persist_workflow_lifecycle
  acknowledged_is_audited alib lossless stores result after h =
      let (transition, final, state, exported, hash, version) =
        after_state-returned lib (audit_log alib) event stores.log
          (apply_workflow_event lib event stores.tables) result after h in
      let held =
        appended alib lossless (audit_event lib event transition.record_) final stores.log after.log
          (audit_log-returned alib (audit_event lib event transition.record_) final stores.log
            after.log exported) in
      (transition, final, held.0, state, held.1, held.2, hash, version)
