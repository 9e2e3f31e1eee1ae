-- ===== src/State/Store/Advance.antt =====
-- What an accepted event does to its workflow in state/store.py.
use engineering_intelligence.Base.{
  ℕ, ◌≡◌, refl, sym, ap, ◌∙◌, ◌⊎◌, inl, inr, String, true, false, Option, none, some, List, [],
  arith, eq_iff, eq_refl, str_eq, if◌then◌else◌, Bool-cases,
}
use engineering_intelligence.Base.Dict.{lookup, lookup-insert}
use engineering_intelligence.Base.Result.{Result, ok, raised, Result-cases}
use engineering_intelligence.State.Models.{WorkflowRecord, ServiceRecord}
use engineering_intelligence.State.Lifecycle.{
  WorkflowLifecycleEvent, allowed_transitions, status_in,
}
use engineering_intelligence.State.Lifecycle.Transitions.{Accepted, apply_to-Accepted, status_of}
use engineering_intelligence.State.Payload.{Library, IsLossless, workflow_fields}
use engineering_intelligence.State.Store.{
  Receipt, Tables, StoreError, WorkflowTransitionResult, row_to_workflow, get_workflow,
  write_workflow, assert_expected, version_of, next_version, record_version, apply_workflow_event,
  put_workflow, put_service, read_row,
}
use engineering_intelligence.State.Store.Versions.{
  row_to_workflow-dumps, put_workflow-returned, immediate-rolled_back,
}
use engineering_intelligence.State.Store.Replay.{
  Transitioned, apply-cases, stored_record, raised_changes_nothing,
}

-- Every workflow that is read under an identifier has that identifier.
unfoldable pub IsKeyed : Library → Tables → Type 0
IsKeyed lib tables =
    (workflow_id : String) (r : WorkflowRecord)
    → get_workflow lib workflow_id tables ≡ ok (some r)
    → r.workflow_id ≡ workflow_id

module _ (lib : Library) (lossless : IsLossless lib) where
  -- A write changes what is read under its own identifier, and nothing else.
  get_workflow-write :
      (workflow_id : String) (r : WorkflowRecord) (tables : Tables)
      → get_workflow lib workflow_id (write_workflow lib r tables) ≡ (
          if str_eq r.workflow_id workflow_id
          then ok (some r)
          else get_workflow lib workflow_id tables)
  unfolding get_workflow write_workflow
  get_workflow-write workflow_id r tables =
      rw
        (lookup-insert r.workflow_id workflow_id
          (record { payload = lib.dumps (workflow_fields r); version = r.version })
          tables.workflows)
        (elim (Bool-cases (str_eq r.workflow_id workflow_id)) [
          | inl same ↦ rw (same, row_to_workflow-dumps lib lossless r) refl
          | inr other ↦ rw other refl
        ])

  write_workflow-IsKeyed :
      (r : WorkflowRecord) (tables : Tables)
      → IsKeyed lib tables
      → IsKeyed lib (write_workflow lib r tables)
  unfolding IsKeyed
  write_workflow-IsKeyed r tables keyed workflow_id q h = ground (
    arith,
    get_workflow-write workflow_id r tables,
    eq_iff r.workflow_id workflow_id,
    keyed workflow_id q,
  )

  -- What an event that was accepted for the first time has done.
  pub record Advanced (event : WorkflowLifecycleEvent) (before : Tables) (stored : WorkflowRecord)
      (after : Tables) : Type 0 where
    pub current : Option WorkflowRecord
    pub read : get_workflow lib event.workflow_id before ≡ ok current
    pub expected :
        (event.expected_version ≡ none) ⊎ (event.expected_version ≡ record_version current)
    pub from : event.from_status ≡ status_of current
    pub allowed : status_in event.to_status (allowed_transitions (status_of current)) ≡ true
    pub to : stored.status ≡ event.to_status
    pub version : stored.version ≡ next_version (record_version current)
    pub readable : get_workflow lib event.workflow_id after ≡ ok (some stored)

  candidate_id :
      (event : WorkflowLifecycleEvent) (before : Tables) (current : Option WorkflowRecord)
      (candidate : WorkflowRecord)
      → IsKeyed lib before
      → get_workflow lib event.workflow_id before ≡ ok current
      → Accepted event current candidate
      → candidate.workflow_id ≡ event.workflow_id
  unfolding IsKeyed
  candidate_id event before current candidate keyed read accepted = elim accepted.id [
    | inl same ↦ same
    | inr (r, was, same) ↦ same ∙ keyed event.workflow_id r (read ∙ ap ok was)
  ]

  get_workflow-receipts :
      (workflow_id : String) (receipts : List Receipt) (tables : Tables)
      → get_workflow lib workflow_id (record tables { receipts = receipts })
        ≡ get_workflow lib workflow_id tables
  unfolding get_workflow
  get_workflow-receipts workflow_id receipts tables = refl

  Transitioned-Advanced :
      (event : WorkflowLifecycleEvent) (before : Tables) (result : WorkflowTransitionResult)
      (after : Tables)
      → IsKeyed lib before
      → Transitioned lib event before result after
      → Advanced event before result.record_ after
  Transitioned-Advanced event before result after keyed new =
      let accepted =
        apply_to-Accepted lib.fromisoformat event new.current new.candidate new.applied in
      let stored = stored_record new.current new.candidate in
      let same : stored.workflow_id ≡ event.workflow_id =
        candidate_id event before new.current new.candidate keyed new.read accepted in
      rw new.returned (record {
        current = new.current;
        read = new.read;
        expected = new.expected;
        from = accepted.from;
        allowed = accepted.allowed;
        to = accepted.to;
        version = refl;
        readable =
            ap (get_workflow lib event.workflow_id) new.committed
            ∙ get_workflow-receipts event.workflow_id _ (write_workflow lib stored before)
            ∙ get_workflow-write event.workflow_id stored before
            ∙ rw (same, eq_refl event.workflow_id) refl;
      })

  clash : (false ≡ true) → ⊥
  clash h = cc

  -- From tables whose workflows are read under their own identifiers, an event that is accepted for the
  -- first time was sent for the stored status and, if it names a version, the stored version, both none
  -- for a new workflow. It makes a transition of the table, and the record that it returns, which has
  -- the next version and the event's status, is read afterwards. Where JSON is read as it was written.
  pub accepted_event_advances :
      (event : WorkflowLifecycleEvent) (before : Tables) (result : WorkflowTransitionResult)
      (after : Tables)
      → IsKeyed lib before
      → apply_workflow_event lib event before ≡ (ok result, after)
      → result.replayed ≡ false
      → Advanced event before result.record_ after
  accepted_event_advances event before result after keyed h fresh =
      elim (apply-cases lib event before result after h) [
        | inl old ↦ absurd (clash (sym fresh ∙ ap (λ r. r.replayed) old.returned))
        | inr new ↦ Transitioned-Advanced event before result after keyed new
      ]

  Transitioned-IsKeyed :
      (event : WorkflowLifecycleEvent) (before : Tables) (result : WorkflowTransitionResult)
      (after : Tables)
      → IsKeyed lib before
      → Transitioned lib event before result after
      → IsKeyed lib after
  unfolding IsKeyed
  Transitioned-IsKeyed event before result after keyed new workflow_id r h =
      let stored = stored_record new.current new.candidate in
      write_workflow-IsKeyed stored before keyed workflow_id r (
        sym (
          ap (get_workflow lib workflow_id) new.committed
          ∙ get_workflow-receipts workflow_id _ (write_workflow lib stored before))
        ∙ h)

same_tables :
    (lib : Library) {before after : Tables}
    → after ≡ before
    → IsKeyed lib before
    → IsKeyed lib after
unfolding IsKeyed
same_tables lib same keyed workflow_id r h = keyed workflow_id r (rw (sym same) h)

empty_IsKeyed :
    (lib : Library) → IsKeyed lib (record { services = []; workflows = []; receipts = [] })
unfolding IsKeyed get_workflow
empty_IsKeyed lib workflow_id r h = absurd (ground arith)

put_workflow-raised :
    (lib : Library) (r : WorkflowRecord) (expected : Option ℕ) (tables after : Tables)
    (e : StoreError)
    → put_workflow lib r expected tables ≡ (raised e, after)
    → after ≡ tables
unfolding put_workflow
put_workflow-raised lib r expected tables after e h = immediate-rolled_back tables _ h

put_service-workflows :
    (lib : Library) (r : ServiceRecord) (expected : Option ℕ) (tables : Tables)
    → (put_service lib r expected tables).1.workflows ≡ tables.workflows
unfolding put_service
put_service-workflows lib r expected tables =
    elim (Result-cases
      (assert_expected (version_of (lookup r.service_id tables.services)) expected)) [
        | inl (done, passed) ↦ rw passed refl
        | inr (e, failed) ↦ rw failed refl
      ]

-- A property of the tables after a call, by whether it returned.
by_outcome {ℓ} :
    {A : Type ℓ} (P : Tables → Type 0) (call : Result StoreError A × Tables)
    → ((e : StoreError) (after : Tables) → call ≡ (raised e, after) → P after)
    → ((a : A) (after : Tables) → call ≡ (ok a, after) → P after)
    → P call.1
by_outcome P (raised e, after) failed returned = failed e after refl
by_outcome P (ok a, after) failed returned = returned a after refl

module _ (lib : Library) (lossless : IsLossless lib) where
  put_workflow-IsKeyed :
      (r : WorkflowRecord) (expected : Option ℕ) (tables : Tables)
      → IsKeyed lib tables
      → IsKeyed lib (put_workflow lib r expected tables).1
  put_workflow-IsKeyed r expected tables keyed =
      by_outcome (IsKeyed lib) (put_workflow lib r expected tables)
        (λ e after h. same_tables lib (put_workflow-raised lib r expected tables after e h) keyed)
        (λ stored after h.
          same_tables lib (put_workflow-returned lib r stored expected tables after h).2
            (write_workflow-IsKeyed lib lossless stored tables keyed))

  apply-IsKeyed :
      (event : WorkflowLifecycleEvent) (tables : Tables)
      → IsKeyed lib tables
      → IsKeyed lib (apply_workflow_event lib event tables).1
  apply-IsKeyed event tables keyed =
      by_outcome (IsKeyed lib) (apply_workflow_event lib event tables)
        (λ e after h. same_tables lib (raised_changes_nothing lib event tables e after h) keyed)
        (λ result after h. elim (apply-cases lib event tables result after h) [
          | inl old ↦ same_tables lib old.kept keyed
          | inr new ↦ Transitioned-IsKeyed lib lossless event tables result after keyed new
        ])

  put_service-IsKeyed :
      (r : ServiceRecord) (expected : Option ℕ) (tables : Tables)
      → IsKeyed lib tables
      → IsKeyed lib (put_service lib r expected tables).1
  unfolding IsKeyed get_workflow
  put_service-IsKeyed r expected tables keyed workflow_id q h = keyed workflow_id q (
      ap (λ rows. read_row (row_to_workflow lib) (lookup workflow_id rows))
        (sym (put_service-workflows lib r expected tables))
      ∙ h)

-- Tables after any sequence of calls of the store's writing operations.
pub data Reached (lib : Library) : Tables → Type 0 where
  opened : Reached lib (record { services = []; workflows = []; receipts = [] })
  put_a_service :
      {before : Tables} (r : ServiceRecord) (expected : Option ℕ)
      → Reached lib before
      → Reached lib (put_service lib r expected before).1
  put_a_workflow :
      {before : Tables} (r : WorkflowRecord) (expected : Option ℕ)
      → Reached lib before
      → Reached lib (put_workflow lib r expected before).1
  sent :
      {before : Tables} (event : WorkflowLifecycleEvent)
      → Reached lib before
      → Reached lib (apply_workflow_event lib event before).1

-- In every state that calls of the store reach, a workflow that is read under an identifier has that
-- identifier, where JSON is read as it was written.
pub Reached-IsKeyed :
    (lib : Library) (lossless : IsLossless lib) {tables : Tables}
    → Reached lib tables
    → IsKeyed lib tables
Reached-IsKeyed lib lossless opened = empty_IsKeyed lib
Reached-IsKeyed lib lossless (put_a_service r expected before) =
    put_service-IsKeyed lib lossless r expected _ (Reached-IsKeyed lib lossless before)
Reached-IsKeyed lib lossless (put_a_workflow r expected before) =
    put_workflow-IsKeyed lib lossless r expected _ (Reached-IsKeyed lib lossless before)
Reached-IsKeyed lib lossless (sent event before) =
    apply-IsKeyed lib lossless event _ (Reached-IsKeyed lib lossless before)
