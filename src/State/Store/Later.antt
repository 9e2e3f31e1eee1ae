-- ===== src/State/Store/Later.antt =====
-- A retry of an event against state/store.py after other calls were made.
use engineering_intelligence.Base.{
  ℕ, ◌≡◌, refl, sym, ap, inl, inr, String, true, ◌&&◌, Option, none, some, str_eq, arith, eq_iff,
  eq_refl, Bool-cases,
}
use engineering_intelligence.Base.Result.{Result, ok, raised, ◌>>=◌, Result-cases}
use engineering_intelligence.State.Models.{WorkflowRecord, ServiceRecord}
use engineering_intelligence.State.Lifecycle.{WorkflowLifecycleEvent}
use engineering_intelligence.State.Payload.{Library, IsLossless}
use engineering_intelligence.State.Store.{
  Receipt, Tables, StoreError, WorkflowTransitionResult, row_to_workflow, put_service, put_workflow,
  write_workflow, assert_expected, immediate, receipt_for, fingerprint, apply_workflow_event,
}
use engineering_intelligence.State.Store.Versions.{row_to_workflow-dumps}
use engineering_intelligence.State.Store.Replay.{
  Transitioned, stored_record, receipt_from, result_of, apply-cases, apply-valid, apply-receipt,
  replayed_transition-receipt, raised_changes_nothing,
}

-- The tables after any calls that came later.
pub data Later (lib : Library) (tables : Tables) : Tables → Type 0 where
  at_once : Later lib tables tables
  event_sent :
      {now : Tables} (other : WorkflowLifecycleEvent)
      → Later lib tables now
      → Later lib tables (apply_workflow_event lib other now).1
  service_put :
      {now : Tables} (r : ServiceRecord) (expected : Option ℕ)
      → Later lib tables now
      → Later lib tables (put_service lib r expected now).1
  workflow_put :
      {now : Tables} (r : WorkflowRecord) (expected : Option ℕ)
      → Later lib tables now
      → Later lib tables (put_workflow lib r expected now).1

paired : {X Y : Type 0} (p : X × Y) {x : X} → p.0 ≡ x → p ≡ (x, p.1)
paired (a, b) h = rw h refl

receipts_kept :
    {A : Type 0} (check : Result StoreError (Unit {0})) (a : A) (tables after : Tables)
    → after.receipts ≡ tables.receipts
    → (immediate tables (check >>= (λ _. ok (a, after)))).1.receipts ≡ tables.receipts
receipts_kept (ok done) a tables after h = h
receipts_kept (raised e) a tables after h = refl

module _ (lib : Library) where
  put_service-receipts :
      (r : ServiceRecord) (expected : Option ℕ) (now : Tables)
      → (put_service lib r expected now).1.receipts ≡ now.receipts
  unfolding put_service
  put_service-receipts r expected now = receipts_kept (assert_expected _ expected) _ now _ refl

  put_workflow-receipts :
      (r : WorkflowRecord) (expected : Option ℕ) (now : Tables)
      → (put_workflow lib r expected now).1.receipts ≡ now.receipts
  unfolding put_workflow write_workflow
  put_workflow-receipts r expected now = receipts_kept (assert_expected _ expected) _ now _ refl

  module _ (workflow_id key : String) (receipt : Receipt) where
    Found : Tables → Type 0
    Found tables = receipt_for workflow_id key tables.receipts ≡ some receipt

    new_receipt_keeps :
        (other : WorkflowLifecycleEvent) (now : Tables) (result : WorkflowTransitionResult)
        (after : Tables)
        → Transitioned lib other now result after
        → Found now
        → Found after
    unfolding Found receipt_for
    new_receipt_keeps other now result after new found =
        elim (Bool-cases
          (str_eq other.workflow_id workflow_id && str_eq other.idempotency_key key)) [
            | inl own ↦
                let ids : (other.workflow_id ≡ workflow_id) × (other.idempotency_key ≡ key) =
                  ground (
                    arith,
                    eq_iff other.workflow_id workflow_id,
                    eq_iff other.idempotency_key key,
                  ) in
                let missing : receipt_for workflow_id key now.receipts ≡ none =
                  rw (sym ids.0, sym ids.1) new.new in
                cc
            | inr different ↦ rw (new.committed, different) found
          ]

    event_keeps :
        (other : WorkflowLifecycleEvent) (now : Tables)
        → Found now
        → Found (apply_workflow_event lib other now).1
    unfolding Found
    event_keeps other now found = elim (Result-cases (apply_workflow_event lib other now).0) [
      | inr (e, failed) ↦ rw (raised_changes_nothing lib other now e _ (paired _ failed)) found
      | inl (result, answer) ↦ elim (apply-cases lib other now result _ (paired _ answer)) [
        | inl old ↦ rw old.kept found
        | inr new ↦ new_receipt_keeps other now result _ new found
      ]
    ]

    receipt_stays : {tables now : Tables} → Later lib tables now → Found tables → Found now
    unfolding Found
    receipt_stays at_once found = found
    receipt_stays (event_sent other before) found = event_keeps other _ (receipt_stays before found)
    receipt_stays (service_put r expected before) found =
        rw (put_service-receipts r expected _) (receipt_stays before found)
    receipt_stays (workflow_put r expected before) found =
        rw (put_workflow-receipts r expected _) (receipt_stays before found)

  module _ (lossless : IsLossless lib) (event : WorkflowLifecycleEvent) where
    replays_by :
        (receipt : Receipt) (stored : WorkflowRecord) (after later : Tables)
        → Later lib after later
        → receipt_for event.workflow_id event.idempotency_key after.receipts ≡ some receipt
        → receipt.event_id ≡ event.event_id
        → receipt.event_fingerprint ≡ fingerprint lib event
        → row_to_workflow lib receipt.workflow_payload ≡ ok stored
        → (now : Tables) (result : WorkflowTransitionResult) (next : Tables)
        → apply_workflow_event lib event now ≡ (ok result, next)
        → apply_workflow_event lib event later ≡ (ok (result_of true event stored), later)
    unfolding Found
    replays_by receipt stored after later calls found id print read now result next h =
        apply-receipt lib event later receipt stored (apply-valid lib event now result next h)
          (receipt_stays event.workflow_id event.idempotency_key receipt calls found)
          (replayed_transition-receipt lib event later receipt stored id print read)

    new_receipt_found :
        (before : Tables) (result : WorkflowTransitionResult) (after : Tables)
        → (new : Transitioned lib event before result after)
        → receipt_for event.workflow_id event.idempotency_key after.receipts
          ≡ some (receipt_from lib event (stored_record new.current new.candidate))
    unfolding receipt_for
    new_receipt_found before result after new =
        rw (new.committed, eq_refl event.workflow_id, eq_refl event.idempotency_key) refl

    -- A retry of an event whose call returned gives the same record again, marked as replayed, whatever calls
    -- of the store came between, and changes no table.
    pub retry_gives_same_record :
        (before : Tables) (result : WorkflowTransitionResult) (after later : Tables)
        → apply_workflow_event lib event before ≡ (ok result, after)
        → Later lib after later
        → apply_workflow_event lib event later ≡ (ok (result_of true event result.record_), later)
    retry_gives_same_record before result after later h calls =
        elim (apply-cases lib event before result after h) [
          | inl old ↦
              replays_by old.receipt result.record_ after later calls (rw old.kept old.found) old.id
                old.print old.read before result after h
          | inr new ↦
              let stored = stored_record new.current new.candidate in
              rw (ap (λ r. r.record_) new.returned) (
                replays_by (receipt_from lib event stored) stored after later calls
                  (new_receipt_found before result after new) refl refl
                  (row_to_workflow-dumps lib lossless stored) before result after h)
        ]
