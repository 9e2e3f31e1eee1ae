-- ===== src/State/Store/Refusals.antt =====
-- What `apply_workflow_event` of state/store.py raises for an event that passes the validation, and the
-- versions of what it returns.
use engineering_intelligence.Base.{
  ℕ, ◌≤◌, ◌≡◌, refl, sym, ap, ◌∙◌, inl, inr, String, Bool, true, false, not, ◌&&◌, Option, none,
  some, List, [], ◌∷◌, str_eq, arith, Bool-cases,
}
use engineering_intelligence.Base.Dict.{lookup, is_some}
use engineering_intelligence.Base.Result.{Result, ok, raised, ◌>>=◌, ◌>>◌, raise_if}
use engineering_intelligence.State.Models.{WorkflowRecord}
use engineering_intelligence.State.Lifecycle.{
  WorkflowLifecycleEvent, LifecycleError, validate, apply_to,
}
use engineering_intelligence.State.Payload.{Library, IsLossless, workflow_of}
use engineering_intelligence.State.Store.{
  Row, Receipt, Tables, StoreError, WorkflowTransitionResult, invalid, version_conflict, integrity,
  unreadable, key_reused, event_reused, or_unreadable, row_to_workflow, get_workflow, read_row,
  assert_expected, next_version, record_version, as_conflict, receipt_for, receipt_of_event,
  insert_receipt, fingerprint, replayed_transition, new_transition, transition, immediate,
  apply_workflow_event,
}
use engineering_intelligence.State.Store.Versions.{row_to_workflow-dumps}
use engineering_intelligence.State.Store.Replay.{stored_record, receipt_from, apply-cases}

-- The lifecycle's validation refused the event.
abbrev pub is_invalid : StoreError → Bool
is_invalid (invalid e) = true
is_invalid (version_conflict c) = false
is_invalid integrity = false
is_invalid unreadable = false

abbrev pub gives_invalid : {A : Type 0} → Result StoreError A → Bool
gives_invalid (ok a) = false
gives_invalid (raised e) = is_invalid e

by_parts :
    {A B : Type 0} (call : Result StoreError A) (rest : A → Result StoreError B)
    → gives_invalid call ≡ false
    → ((a : A) → gives_invalid (rest a) ≡ false)
    → gives_invalid (call >>= rest) ≡ false
by_parts (ok a) rest h k = k a
by_parts (raised e) rest h k = h

guard_valid :
    (c : Bool) (e : StoreError) → is_invalid e ≡ false → gives_invalid (raise_if c e) ≡ false
guard_valid true e h = h
guard_valid false e h = refl

guard_then :
    {B : Type 0} (c : Bool) (e : StoreError) (rest : Result StoreError B)
    → is_invalid e ≡ false
    → gives_invalid rest ≡ false
    → gives_invalid (raise_if c e >> rest) ≡ false
guard_then true e rest h k = h
guard_then false e rest h k = k

or_unreadable_valid : {A : Type 0} (o : Option A) → gives_invalid (or_unreadable o) ≡ false
unfolding or_unreadable
or_unreadable_valid none = refl
or_unreadable_valid (some a) = refl

row_to_workflow_valid :
    (lib : Library) (payload : String) → gives_invalid (row_to_workflow lib payload) ≡ false
unfolding row_to_workflow
row_to_workflow_valid lib payload =
    by_parts (or_unreadable (lib.loads payload)) (λ raw. or_unreadable (workflow_of raw))
      (or_unreadable_valid (lib.loads payload)) (λ raw. or_unreadable_valid (workflow_of raw))

read_row_valid :
    (lib : Library) (row : Option Row) → gives_invalid (read_row (row_to_workflow lib) row) ≡ false
read_row_valid lib none = refl
read_row_valid lib (some row) =
    by_parts (row_to_workflow lib row.payload) (λ r. ok (some r))
      (row_to_workflow_valid lib row.payload) (λ r. refl)

assert_expected_valid :
    (current expected : Option ℕ) → gives_invalid (assert_expected current expected) ≡ false
unfolding assert_expected
assert_expected_valid current none = refl
assert_expected_valid none (some e) = refl
assert_expected_valid (some v) (some e) = guard_valid _ _ refl

as_conflict_valid :
    {A : Type 0} (call : Result LifecycleError A) → gives_invalid (as_conflict call) ≡ false
as_conflict_valid (ok a) = refl
as_conflict_valid (raised e) = refl

insert_receipt_valid :
    (r : Receipt) (receipts : List Receipt) → gives_invalid (insert_receipt r receipts) ≡ false
unfolding insert_receipt
insert_receipt_valid r receipts =
    guard_then (is_some (receipt_for r.workflow_id r.idempotency_key receipts)) integrity _ refl (
      guard_then (is_some (receipt_of_event r.workflow_id r.event_id receipts)) integrity
        (ok (r ∷ receipts)) refl refl)

module _ (lib : Library) (event : WorkflowLifecycleEvent) (tables : Tables) where
  new_transition_valid : gives_invalid (new_transition lib event tables) ≡ false
  unfolding new_transition get_workflow
  new_transition_valid =
      by_parts
        (raise_if (is_some (receipt_of_event event.workflow_id event.event_id tables.receipts))
          (version_conflict event_reused))
        _ (guard_valid _ _ refl)
        (λ _.
          by_parts (get_workflow lib event.workflow_id tables) _
            (read_row_valid lib (lookup event.workflow_id tables.workflows))
            (λ current.
              by_parts (assert_expected (record_version current) event.expected_version) _
                (assert_expected_valid (record_version current) event.expected_version)
                (λ _.
                  by_parts (as_conflict (apply_to lib.fromisoformat event current)) _
                    (as_conflict_valid (apply_to lib.fromisoformat event current))
                    (λ candidate.
                      by_parts
                        (insert_receipt (receipt_from lib event (stored_record current candidate))
                          tables.receipts)
                        _
                        (insert_receipt_valid
                          (receipt_from lib event (stored_record current candidate))
                          tables.receipts)
                        (λ receipts. refl)))))

  replayed_transition_valid :
      (receipt : Receipt) → gives_invalid (replayed_transition lib event receipt) ≡ false
  unfolding replayed_transition
  replayed_transition_valid receipt =
      by_parts
        (raise_if
          (not (
            str_eq receipt.event_id event.event_id
            && str_eq receipt.event_fingerprint (fingerprint lib event)))
          (version_conflict key_reused))
        _ (guard_valid _ _ refl)
        (λ _.
          by_parts (row_to_workflow lib receipt.workflow_payload) _
            (row_to_workflow_valid lib receipt.workflow_payload) (λ r. refl))

  transition_valid :
      (receipt : Option Receipt) → gives_invalid (transition lib event tables receipt) ≡ false
  unfolding transition
  transition_valid none = new_transition_valid
  transition_valid (some receipt) =
      by_parts (replayed_transition lib event receipt) _ (replayed_transition_valid receipt)
        (λ r. refl)

  immediate_valid :
      (body : Result StoreError (WorkflowTransitionResult × Tables))
      → gives_invalid body ≡ false
      → gives_invalid (immediate tables body).0 ≡ false
  immediate_valid (ok returned) h = refl
  immediate_valid (raised e) h = h

  -- An event that passes the validation is not refused by it.
  pub apply_valid :
      validate lib.fromisoformat event ≡ ok tt
      → gives_invalid (apply_workflow_event lib event tables).0 ≡ false
  unfolding apply_workflow_event
  apply_valid h = rw h (
      immediate_valid _
        (transition_valid (receipt_for event.workflow_id event.idempotency_key tables.receipts)))

-- Every receipt keeps a record of a version from 1.
unfoldable pub IsNumbered : Library → Tables → Type 0
IsNumbered lib tables =
    (workflow_id key : String) (receipt : Receipt) (r : WorkflowRecord)
    → receipt_for workflow_id key tables.receipts ≡ some receipt
    → row_to_workflow lib receipt.workflow_payload ≡ ok r
    → 1 ≤ r.version

next_is_numbered : (version : Option ℕ) → 1 ≤ next_version version
next_is_numbered none = omega arith
next_is_numbered (some v) = omega arith

pub empty-IsNumbered :
    (lib : Library) → IsNumbered lib (record { services = []; workflows = []; receipts = [] })
unfolding IsNumbered receipt_for
empty-IsNumbered lib workflow_id key receipt r found read = cc

same_read :
    (read : Result StoreError WorkflowRecord) (a b : WorkflowRecord)
    → read ≡ ok a
    → read ≡ ok b
    → a ≡ b
same_read read a b h k = cc

-- An event that is accepted gives a record of a version from 1, and so does its receipt.
pub apply-IsNumbered :
    (lib : Library) (lossless : IsLossless lib) (event : WorkflowLifecycleEvent) (before : Tables)
    (result : WorkflowTransitionResult) (after : Tables)
    → IsNumbered lib before
    → apply_workflow_event lib event before ≡ (ok result, after)
    → (1 ≤ result.record_.version) × IsNumbered lib after
unfolding IsNumbered receipt_for
apply-IsNumbered lib lossless event before result after numbered h =
    elim (apply-cases lib event before result after h) [
      | inl old ↦ (
        numbered event.workflow_id event.idempotency_key old.receipt result.record_ old.found
            old.read,
        rw old.kept numbered,
      )
      | inr new ↦
          let stored = stored_record new.current new.candidate in
          let version = next_is_numbered (record_version new.current) in
          (
            rw new.returned version,
            rw new.committed (λ workflow_id key receipt r found read.
                elim (Bool-cases
                  (str_eq event.workflow_id workflow_id && str_eq event.idempotency_key key)) [
                    | inl own ↦
                        let same : receipt_from lib event stored ≡ receipt = ground arith in
                        let same_record : stored ≡ r =
                          same_read (row_to_workflow lib receipt.workflow_payload) stored r
                            (ap (λ x. row_to_workflow lib x.workflow_payload) (sym same)
                              ∙ row_to_workflow-dumps lib lossless stored)
                            read in
                        rw (sym same_record) version
                    | inr other ↦ numbered workflow_id key receipt r (ground arith) read
                  ]),
          )
    ]
