-- ===== src/State/Store/Replay.antt =====
-- The events of state/store.py: what `apply_workflow_event` commits, and what a retry gives.
use engineering_intelligence.Base.{
  ◌≡◌, ◌≢◌, refl, sym, ◌∙◌, ◌⊎◌, inl, inr, Bool, true, false, ◌&&◌, Option, none, some, ◌∷◌, arith,
  eq_iff, eq_refl, str_eq,
}
use engineering_intelligence.Base.Dict.{is_some}
use engineering_intelligence.Base.Result.{Result, ok, raised, Result-cases}
use engineering_intelligence.State.Models.{WorkflowRecord}
use engineering_intelligence.State.Lifecycle.{
  WorkflowLifecycleEvent, LifecycleError, validate, apply_to,
}
use engineering_intelligence.State.Payload.{Library, IsLossless, workflow_fields}
use engineering_intelligence.State.Store.{
  Receipt, Tables, StoreError, WorkflowTransitionResult, version_conflict, key_reused,
  row_to_workflow, get_workflow, write_workflow, assert_expected, next_version, record_version,
  receipt_for, insert_receipt, fingerprint, replayed_transition, new_transition, transition,
  after_validation, apply_workflow_event,
}
use engineering_intelligence.State.Store.Versions.{
  assert_expected-passed, row_to_workflow-dumps, immediate-committed, immediate-rolled_back,
}

-- The record that an event stores, and its receipt.
abbrev pub stored_record : Option WorkflowRecord → WorkflowRecord → WorkflowRecord
stored_record current candidate = record candidate {
  version = next_version (record_version current);
}

abbrev pub receipt_from : Library → WorkflowLifecycleEvent → WorkflowRecord → Receipt
receipt_from lib event stored = record {
  workflow_id = event.workflow_id;
  idempotency_key = event.idempotency_key;
  event_id = event.event_id;
  event_fingerprint = fingerprint lib event;
  workflow_payload = lib.dumps (workflow_fields stored);
}

abbrev pub result_of : Bool → WorkflowLifecycleEvent → WorkflowRecord → WorkflowTransitionResult
result_of replayed event stored = record {
  record_ = stored;
  event_id = event.event_id;
  idempotency_key = event.idempotency_key;
  replayed = replayed;
}

-- What is committed for an event that had no receipt.
pub record Transitioned (lib : Library) (event : WorkflowLifecycleEvent) (before : Tables)
    (result : WorkflowTransitionResult) (after : Tables) : Type 0 where
  pub current : Option WorkflowRecord
  pub candidate : WorkflowRecord
  pub new : receipt_for event.workflow_id event.idempotency_key before.receipts ≡ none
  pub read : get_workflow lib event.workflow_id before ≡ ok current
  pub expected : (event.expected_version ≡ none) ⊎ (event.expected_version ≡ record_version current)
  pub applied : apply_to lib.fromisoformat event current ≡ ok candidate
  pub returned : result ≡ result_of false event (stored_record current candidate)
  pub committed : after ≡ record (write_workflow lib (stored_record current candidate) before) {
    receipts = receipt_from lib event (stored_record current candidate) ∷ before.receipts;
  }

-- What a call returns for an event that had a receipt.
pub record Replayed (lib : Library) (event : WorkflowLifecycleEvent) (before : Tables)
    (result : WorkflowTransitionResult) (after : Tables) : Type 0 where
  pub receipt : Receipt
  pub found : receipt_for event.workflow_id event.idempotency_key before.receipts ≡ some receipt
  pub id : receipt.event_id ≡ event.event_id
  pub print : receipt.event_fingerprint ≡ fingerprint lib event
  pub read : row_to_workflow lib receipt.workflow_payload ≡ ok result.record_
  pub returned : result ≡ result_of true event result.record_
  pub kept : after ≡ before

absent {ℓ} : {A : Type ℓ} (o : Option A) → is_some o ≡ false → o ≡ none
absent none h = refl
absent (some a) h = cc

after_validation-raised :
    (tables : Tables) (validated : Result LifecycleError (Unit {0}))
    (body : Result StoreError (WorkflowTransitionResult × Tables)) {e : StoreError} {after : Tables}
    → after_validation tables validated body ≡ (raised e, after)
    → after ≡ tables
after_validation-raised tables (raised e) body h = cc
after_validation-raised tables (ok done) body h = immediate-rolled_back tables body h

after_validation-returned :
    (tables : Tables) (validated : Result LifecycleError (Unit {0}))
    (body : Result StoreError (WorkflowTransitionResult × Tables))
    {result : WorkflowTransitionResult} {after : Tables}
    → after_validation tables validated body ≡ (ok result, after)
    → (validated ≡ ok tt) × (body ≡ ok (result, after))
after_validation-returned tables (raised e) body h = cc
after_validation-returned tables (ok done) body h = (refl, immediate-committed tables body h)

module _ (lib : Library) (event : WorkflowLifecycleEvent) (before : Tables) where
  new_transition-Transitioned :
      (result : WorkflowTransitionResult) (after : Tables)
      → new_transition lib event before ≡ ok (result, after)
      → Transitioned lib event before result after
  unfolding new_transition insert_receipt
  new_transition-Transitioned result after h =
      elim (Result-cases (get_workflow lib event.workflow_id before)) [
        | inr (e, failed) ↦ absurd (ground arith)
        | inl (current, read) ↦ elim (Result-cases (apply_to lib.fromisoformat event current)) [
          | inr (e, failed) ↦ absurd (ground arith)
          | inl (candidate, applied) ↦
              let parts : (assert_expected (record_version current) event.expected_version ≡ ok tt)
                  × (is_some (receipt_for event.workflow_id event.idempotency_key before.receipts)
                      ≡ false)
                  × (result_of false event (stored_record current candidate) ≡ result)
                  × (record (write_workflow lib (stored_record current candidate) before) {
                    receipts =
                        receipt_from lib event (stored_record current candidate) ∷ before.receipts;
                  }
                      ≡ after) =
                ground arith in
              record {
                current = current;
                candidate = candidate;
                new = absent _ parts.1;
                read = read;
                expected =
                    assert_expected-passed (record_version current) event.expected_version parts.0;
                applied = applied;
                returned = sym parts.2;
                committed = sym parts.3;
              }
        ]
      ]

  replayed_transition-returned :
      (receipt : Receipt) (result : WorkflowTransitionResult)
      → replayed_transition lib event receipt ≡ ok result
      → (receipt.event_id ≡ event.event_id)
        × (receipt.event_fingerprint ≡ fingerprint lib event)
        × (row_to_workflow lib receipt.workflow_payload ≡ ok result.record_)
        × (result ≡ result_of true event result.record_)
  unfolding replayed_transition
  replayed_transition-returned receipt result h =
      elim (Result-cases (row_to_workflow lib receipt.workflow_payload)) [
        | inr (e, failed) ↦ absurd (ground arith)
        | inl (stored, read) ↦
            let parts : (str_eq receipt.event_id event.event_id
                    && str_eq receipt.event_fingerprint (fingerprint lib event)
                  ≡ true)
                × (result_of true event stored ≡ result) =
              ground arith in
            (
              ground (arith, eq_iff receipt.event_id event.event_id),
              ground (arith, eq_iff receipt.event_fingerprint (fingerprint lib event)),
              cc,
              cc,
            )
      ]

  -- An event whose receipt is in the table, with a payload that reads as the record, is replayed.
  pub replayed_transition-receipt :
      (receipt : Receipt) (stored : WorkflowRecord)
      → receipt.event_id ≡ event.event_id
      → receipt.event_fingerprint ≡ fingerprint lib event
      → row_to_workflow lib receipt.workflow_payload ≡ ok stored
      → replayed_transition lib event receipt ≡ ok (result_of true event stored)
  unfolding replayed_transition
  replayed_transition-receipt receipt stored id print read =
      rw (id, print, read, eq_refl event.event_id, eq_refl (fingerprint lib event)) refl

  -- An event whose call raises, for whatever reason, leaves every table as it was.
  pub raised_changes_nothing :
      (e : StoreError) (after : Tables)
      → apply_workflow_event lib event before ≡ (raised e, after)
      → after ≡ before
  unfolding apply_workflow_event
  raised_changes_nothing e after h = after_validation-raised before _ _ h

  transition-cases :
      (receipt : Option Receipt) (result : WorkflowTransitionResult) (after : Tables)
      → receipt_for event.workflow_id event.idempotency_key before.receipts ≡ receipt
      → transition lib event before receipt ≡ ok (result, after)
      → Replayed lib event before result after ⊎ Transitioned lib event before result after
  unfolding transition
  transition-cases none result after found h = inr (new_transition-Transitioned result after h)
  transition-cases (some receipt) result after found h =
      elim (Result-cases (replayed_transition lib event receipt)) [
        | inr (e, failed) ↦ absurd (ground arith)
        | inl (replayed, call) ↦
            let parts : (replayed ≡ result) × (before ≡ after) = ground arith in
            let known = replayed_transition-returned receipt result (rw (sym parts.0) call) in
            inl (record {
              receipt = receipt;
              found = found;
              id = known.0;
              print = known.1;
              read = known.2;
              returned = known.3;
              kept = sym parts.1;
            })
      ]

  pub apply-cases :
      (result : WorkflowTransitionResult) (after : Tables)
      → apply_workflow_event lib event before ≡ (ok result, after)
      → Replayed lib event before result after ⊎ Transitioned lib event before result after
  unfolding apply_workflow_event
  apply-cases result after h =
      transition-cases _ result after refl (after_validation-returned before _ _ h).1

  pub apply-valid :
      (result : WorkflowTransitionResult) (after : Tables)
      → apply_workflow_event lib event before ≡ (ok result, after)
      → validate lib.fromisoformat event ≡ ok tt
  unfolding apply_workflow_event
  apply-valid result after h = (after_validation-returned before _ _ h).0

  pub apply-receipt :
      (receipt : Receipt) (stored : WorkflowRecord)
      → validate lib.fromisoformat event ≡ ok tt
      → receipt_for event.workflow_id event.idempotency_key before.receipts ≡ some receipt
      → replayed_transition lib event receipt ≡ ok (result_of true event stored)
      → apply_workflow_event lib event before ≡ (ok (result_of true event stored), before)
  unfolding apply_workflow_event transition
  apply-receipt receipt stored valid found call = rw (valid, found, call) refl

module _ (lib : Library) (lossless : IsLossless lib) (event : WorkflowLifecycleEvent) where
  retry_of_new :
      (before : Tables) (result : WorkflowTransitionResult) (after : Tables)
      → validate lib.fromisoformat event ≡ ok tt
      → Transitioned lib event before result after
      → apply_workflow_event lib event after ≡ (ok (result_of true event result.record_), after)
  unfolding receipt_for
  retry_of_new before result after valid new =
      let stored = stored_record new.current new.candidate in
      let receipt = receipt_from lib event stored in
      rw (new.returned, new.committed)
        (apply-receipt lib event _ receipt stored valid
          (rw (eq_refl event.workflow_id, eq_refl event.idempotency_key) refl)
          (replayed_transition-receipt lib event before receipt stored refl refl
            (row_to_workflow-dumps lib lossless stored)))

  -- A retry of an event whose call returned gives the same record again, marked as replayed, and
  -- changes no table, where JSON is read as it was written.
  pub retry_replays :
      (before : Tables) (result : WorkflowTransitionResult) (after : Tables)
      → apply_workflow_event lib event before ≡ (ok result, after)
      → apply_workflow_event lib event after ≡ (ok (result_of true event result.record_), after)
  retry_replays before result after h = elim (apply-cases lib event before result after h) [
    | inl old ↦ rw (sym old.returned, old.kept) (h ∙ rw old.kept refl)
    | inr new ↦ retry_of_new before result after (apply-valid lib event before result after h) new
  ]

module _ (lib : Library) (event : WorkflowLifecycleEvent) where
  kept_receipt :
      (before : Tables) (result : WorkflowTransitionResult) (after : Tables)
      → Replayed lib event before result after ⊎ Transitioned lib event before result after
      → (receipt : Receipt) × (receipt_for event.workflow_id event.idempotency_key after.receipts
          ≡ some receipt)
        × (receipt.event_id ≡ event.event_id)
        × (receipt.event_fingerprint ≡ fingerprint lib event)
  unfolding receipt_for
  kept_receipt before result after (inl old) =
      (old.receipt, rw old.kept old.found, old.id, old.print)
  kept_receipt before result after (inr new) = (
    receipt_from lib event (stored_record new.current new.candidate),
    rw new.committed (rw (eq_refl event.workflow_id, eq_refl event.idempotency_key) refl),
    refl,
    refl,
  )

module _ (lib : Library) (event other : WorkflowLifecycleEvent) where
  replayed_transition-refuses :
      (receipt : Receipt)
      → (str_eq receipt.event_id other.event_id
          && str_eq receipt.event_fingerprint (fingerprint lib other))
        ≡ false
      → replayed_transition lib other receipt ≡ raised (version_conflict key_reused)
  unfolding replayed_transition
  replayed_transition-refuses receipt differs = rw differs refl

  apply-refuses :
      (tables : Tables) (receipt : Receipt)
      → validate lib.fromisoformat other ≡ ok tt
      → receipt_for other.workflow_id other.idempotency_key tables.receipts ≡ some receipt
      → replayed_transition lib other receipt ≡ raised (version_conflict key_reused)
      → apply_workflow_event lib other tables ≡ (raised (version_conflict key_reused), tables)
  unfolding apply_workflow_event transition
  apply-refuses tables receipt valid found call = rw (valid, found, call) refl

  -- After an event whose call returned, every other valid event for the same workflow under the same
  -- idempotency key, of another id or another fingerprint, raises a conflict and changes no table.
  pub reused_key_raises :
      (before : Tables) (result : WorkflowTransitionResult) (after : Tables)
      → apply_workflow_event lib event before ≡ (ok result, after)
      → validate lib.fromisoformat other ≡ ok tt
      → other.workflow_id ≡ event.workflow_id
      → other.idempotency_key ≡ event.idempotency_key
      → (other.event_id ≢ event.event_id) ⊎ (fingerprint lib other ≢ fingerprint lib event)
      → apply_workflow_event lib other after ≡ (raised (version_conflict key_reused), after)
  reused_key_raises before result after h valid same_id same_key differs =
      let kept =
        kept_receipt lib event before result after (apply-cases lib event before result after h) in
      let refused : (str_eq kept.0.event_id other.event_id
            && str_eq kept.0.event_fingerprint (fingerprint lib other))
          ≡ false =
        ground (
          arith,
          eq_iff kept.0.event_id other.event_id,
          eq_iff kept.0.event_fingerprint (fingerprint lib other),
        ) in
      apply-refuses after kept.0 valid (rw (same_id, same_key) kept.1)
        (replayed_transition-refuses kept.0 refused)
