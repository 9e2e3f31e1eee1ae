-- ===== src/State/Store.antt =====
-- state/store.py: the SQLite state store. A table with a text key is a `Dict`, the table of receipts a
-- list. Every operation takes the tables and gives back what it returns or raises, and the tables
-- after it. Connections and the schema are SQLite's, and are not modelled; `BEGIN IMMEDIATE` makes the
-- transactions of several writers a sequence.
pub mod Versions
pub mod Codec
pub mod Replay
pub mod Refinement
pub mod Refusals
pub mod Later
pub mod Advance
pub mod Samples
mod Tests
use Prim.Native.String.{◌++◌}
use engineering_intelligence.Base.{
  ℕ, ◌+◌, String, Bool, true, false, not, ◌&&◌, Option, none, some, List, [], ◌∷◌, ◌==◌, str_eq,
  if◌then◌else◌,
}
use engineering_intelligence.Base.Dict.{Dict, lookup, insert, is_some}
use engineering_intelligence.Base.Result.{Result, ok, raised, ◌>>=◌, ◌>>◌, raise_if}
use engineering_intelligence.State.Models.{ServiceRecord, WorkflowRecord}
use engineering_intelligence.State.Lifecycle.{
  WorkflowLifecycleEvent, LifecycleError, validate, apply_to,
}
use engineering_intelligence.State.Payload.{
  Library, Json, workflow_fields, workflow_of, service_fields, service_of,
}

pub record Row : Type 0 where
  pub payload : String
  pub version : ℕ

-- A row of `workflow_transition_receipts`.
pub record Receipt : Type 0 where
  pub workflow_id : String
  pub idempotency_key : String
  pub event_id : String
  pub event_fingerprint : String
  pub workflow_payload : String

pub record Tables : Type 0 where
  pub services : Dict Row
  pub workflows : Dict Row
  pub receipts : List Receipt

pub record WorkflowTransitionResult : Type 0 where
  pub record_ : WorkflowRecord
  pub event_id : String
  pub idempotency_key : String
  pub replayed : Bool

-- Why `VersionConflict` was raised.
pub data Conflict : Type 0 where
  unexpected_version : Option ℕ → ℕ → Conflict
  key_reused event_reused : Conflict
  contract : LifecycleError → Conflict

-- What an operation raises: `LifecycleContractError`, `VersionConflict`, SQLite's `IntegrityError`, or an
-- error of a payload that is not a record.
pub data StoreError : Type 0 where
  invalid : LifecycleError → StoreError
  version_conflict : Conflict → StoreError
  integrity unreadable : StoreError

or_unreadable {ℓ} : {A : Type ℓ} → Option A → Result StoreError A
or_unreadable none = raised unreadable
or_unreadable (some a) = ok a

unfoldable pub row_to_workflow : Library → String → Result StoreError WorkflowRecord
unfolding or_unreadable
row_to_workflow lib payload = do
  raw ← or_unreadable (lib.loads payload)
  or_unreadable (workflow_of raw)

unfoldable pub row_to_service : Library → String → Result StoreError ServiceRecord
unfolding or_unreadable
row_to_service lib payload = do
  raw ← or_unreadable (lib.loads payload)
  or_unreadable (service_of raw)

-- A row that a query found, read.
abbrev pub read_row {ℓ} :
    {A : Type ℓ} → (String → Result StoreError A) → Option Row → Result StoreError (Option A)
read_row read none = ok none
read_row read (some row) = do value ← read row.payload; ok (some value)

unfoldable pub get_service : Library → String → Tables → Result StoreError (Option ServiceRecord)
get_service lib service_id tables =
    read_row (row_to_service lib) (lookup service_id tables.services)

unfoldable pub get_workflow : Library → String → Tables → Result StoreError (Option WorkflowRecord)
get_workflow lib workflow_id tables =
    read_row (row_to_workflow lib) (lookup workflow_id tables.workflows)

-- `_immediate`: a body that returns is committed, one that raises is rolled back.
abbrev pub immediate {ℓ} :
    {A : Type ℓ} → Tables → Result StoreError (A × Tables) → Result StoreError A × Tables
immediate tables (raised e) = (raised e, tables)
immediate tables (ok returned) = (ok returned.0, returned.1)

-- `_assert_expected`
unfoldable pub assert_expected : Option ℕ → Option ℕ → Result StoreError (Unit {0})
assert_expected current none = ok tt
assert_expected none (some expected) = raised (version_conflict (unexpected_version none expected))
assert_expected (some version) (some expected) =
    raise_if (not (version == expected))
      (version_conflict (unexpected_version (some version) expected))

abbrev pub version_of : Option Row → Option ℕ
version_of none = none
version_of (some row) = some row.version

abbrev pub next_version : Option ℕ → ℕ
next_version none = 1
next_version (some version) = version + 1

-- `_write_workflow`
unfoldable pub write_workflow : Library → WorkflowRecord → Tables → Tables
write_workflow lib r tables = record tables {
  workflows =
      insert r.workflow_id (record { payload = lib.dumps (workflow_fields r); version = r.version })
        tables.workflows;
}

unfoldable pub put_service :
    Library → ServiceRecord → Option ℕ → Tables → Result StoreError ServiceRecord × Tables
put_service lib r expected tables =
    let current = version_of (lookup r.service_id tables.services) in
    let stored = record r { version = next_version current } in
    immediate tables (do
      assert_expected current expected
      ok (
        stored,
        record tables {
          services =
              insert stored.service_id
                (record { payload = lib.dumps (service_fields stored); version = stored.version })
                tables.services;
        },
      ))

unfoldable pub put_workflow :
    Library → WorkflowRecord → Option ℕ → Tables → Result StoreError WorkflowRecord × Tables
put_workflow lib r expected tables =
    let current = version_of (lookup r.workflow_id tables.workflows) in
    let stored = record r { version = next_version current } in
    immediate tables
      (do assert_expected current expected; ok (stored, write_workflow lib stored tables))

-- `WHERE workflow_id=? AND idempotency_key=?`
unfoldable pub receipt_for : String → String → List Receipt → Option Receipt
receipt_for workflow_id key [] = none
receipt_for workflow_id key (r ∷ receipts) =
    if str_eq r.workflow_id workflow_id && str_eq r.idempotency_key key
    then some r
    else receipt_for workflow_id key receipts

-- `WHERE workflow_id=? AND event_id=?`
unfoldable pub receipt_of_event : String → String → List Receipt → Option Receipt
receipt_of_event workflow_id event_id [] = none
receipt_of_event workflow_id event_id (r ∷ receipts) =
    if str_eq r.workflow_id workflow_id && str_eq r.event_id event_id
    then some r
    else receipt_of_event workflow_id event_id receipts

-- The insertion of a receipt, with the two constraints of its table.
unfoldable pub insert_receipt : Receipt → List Receipt → Result StoreError (List Receipt)
insert_receipt r receipts = do
  raise_if (is_some (receipt_for r.workflow_id r.idempotency_key receipts)) integrity
  raise_if (is_some (receipt_of_event r.workflow_id r.event_id receipts)) integrity
  ok (r ∷ receipts)

-- `event.fingerprint`
abbrev pub fingerprint : Library → WorkflowLifecycleEvent → String
fingerprint lib event = "sha256:" ++ lib.sha256 (lib.dumps_event event)

-- `_replayed_transition`
unfoldable pub replayed_transition :
    Library → WorkflowLifecycleEvent → Receipt → Result StoreError WorkflowTransitionResult
replayed_transition lib event receipt = do
  raise_if
      (not (
        str_eq receipt.event_id event.event_id
        && str_eq receipt.event_fingerprint (fingerprint lib event)))
      (version_conflict key_reused)
  stored ← row_to_workflow lib receipt.workflow_payload
  ok (record {
    record_ = stored;
    event_id = event.event_id;
    idempotency_key = event.idempotency_key;
    replayed = true;
  })

abbrev pub record_version : Option WorkflowRecord → Option ℕ
record_version none = none
record_version (some r) = some r.version

-- `except LifecycleContractError`
abbrev pub as_conflict {ℓ} : {A : Type ℓ} → Result LifecycleError A → Result StoreError A
as_conflict (raised e) = raised (version_conflict (contract e))
as_conflict (ok a) = ok a

-- The transaction of an event that has no receipt.
unfoldable pub new_transition :
    Library
    → WorkflowLifecycleEvent
    → Tables
    → Result StoreError (WorkflowTransitionResult × Tables)
new_transition lib event tables = do
  raise_if (is_some (receipt_of_event event.workflow_id event.event_id tables.receipts))
      (version_conflict event_reused)
  current ← get_workflow lib event.workflow_id tables
  assert_expected (record_version current) event.expected_version
  candidate ← as_conflict (apply_to lib.fromisoformat event current)
  let stored = record candidate { version = next_version (record_version current) }
  receipts ←
      insert_receipt
        (record {
          workflow_id = event.workflow_id;
          idempotency_key = event.idempotency_key;
          event_id = event.event_id;
          event_fingerprint = fingerprint lib event;
          workflow_payload = lib.dumps (workflow_fields stored);
        })
        tables.receipts
  ok (
    record {
      record_ = stored;
      event_id = event.event_id;
      idempotency_key = event.idempotency_key;
      replayed = false;
    },
    record (write_workflow lib stored tables) { receipts = receipts },
  )

-- The transaction, by the receipt that was found.
unfoldable pub transition :
    Library
    → WorkflowLifecycleEvent
    → Tables
    → Option Receipt
    → Result StoreError (WorkflowTransitionResult × Tables)
transition lib event tables (some receipt) = do
  result ← replayed_transition lib event receipt
  ok (result, tables)
transition lib event tables none = new_transition lib event tables

abbrev pub after_validation :
    Tables
    → Result LifecycleError (Unit {0})
    → Result StoreError (WorkflowTransitionResult × Tables)
    → Result StoreError WorkflowTransitionResult × Tables
after_validation tables (raised e) body = (raised (invalid e), tables)
after_validation tables (ok done) body = immediate tables body

unfoldable pub apply_workflow_event :
    Library → WorkflowLifecycleEvent → Tables → Result StoreError WorkflowTransitionResult × Tables
apply_workflow_event lib event tables = after_validation tables (validate lib.fromisoformat event) (
    transition lib event tables
      (receipt_for event.workflow_id event.idempotency_key tables.receipts))
