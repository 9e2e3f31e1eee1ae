-- ===== src/State/Audit.antt =====
-- state/audit.py: the hash-chained audit log in SQLite. Its table is the list of its rows in the order of
-- their sequence. hashlib and json are Python's: what the log uses of them is `Library`. An event's payload
-- is one JSON value, as Payload has them. Connections and the schema are SQLite's, and are not modelled;
-- `BEGIN IMMEDIATE` makes the transactions of several writers a sequence.
pub mod Chain
pub mod Tamper
pub mod Samples
mod Tests
use engineering_intelligence.Base.{
  ℕ, String, Bool, true, false, not, ◌&&◌, Option, none, some, List, [], ◌∷◌, ◌++◌, str_eq,
  if◌then◌else◌, length,
}
use engineering_intelligence.Base.Dict.{Dict}
use engineering_intelligence.Base.Result.{Result, ok, raised}
use engineering_intelligence.State.Payload.{Json}

pub record AuditEvent : Type 0 where
  pub event_id : String
  pub correlation_id : String
  pub actor : String
  pub action : String
  pub resource : String
  pub payload : Json
  pub occurred_at : String
  pub previous_hash : Option String
  pub event_hash : Option String

-- `compact` is `json.dumps` of `asdict` of an event with its separators, `dumps` without them, and `loads`
-- the event of `AuditEvent(**json.loads(payload))`, or none where that raises.
pub record Library : Type 0 where
  pub sha256 : String → String
  pub compact : AuditEvent → String
  pub dumps : AuditEvent → String
  pub loads : String → Option AuditEvent

pub record AuditRow : Type 0 where
  pub event_id : String
  pub payload : String
  pub event_hash : String

abbrev pub Log : Type 0
Log = List AuditRow

pub data AuditError : Type 0 where
  conflict unreadable : AuditError

-- `_canonical`
abbrev pub canonical : Library → AuditEvent → String
canonical lib event = lib.compact (record event { event_hash = none })

abbrev pub compute_event_hash : Library → AuditEvent → String
compute_event_hash lib event = lib.sha256 (canonical lib event)

-- `_event_identity`
abbrev pub event_identity : Library → AuditEvent → String
event_identity lib event = lib.compact (record event { previous_hash = none; event_hash = none })

-- `SELECT event_hash ... ORDER BY sequence DESC LIMIT 1`
abbrev pub last_hash_from : Option String → Log → Option String
last_hash_from previous [] = previous
last_hash_from previous (row ∷ rows) = last_hash_from (some row.event_hash) rows

unfoldable pub last_hash : Log → Option String
last_hash rows = last_hash_from none rows

unfoldable pub event_count : Log → ℕ
event_count rows = length rows

-- `WHERE event_id=?`
abbrev pub row_of : String → Log → Option AuditRow
row_of event_id [] = none
row_of event_id (row ∷ rows) =
    if str_eq row.event_id event_id then some row else row_of event_id rows

-- The event with its place in the chain and its hash.
abbrev pub finalized : Library → AuditEvent → Option String → AuditEvent
finalized lib event previous = record event {
  previous_hash = previous;
  event_hash =
      some (compute_event_hash lib (record event { previous_hash = previous; event_hash = none }));
}

abbrev pub row_for : Library → AuditEvent → Option String → AuditRow
row_for lib event previous = record {
  event_id = event.event_id;
  payload = lib.dumps (finalized lib event previous);
  event_hash =
      compute_event_hash lib (record event { previous_hash = previous; event_hash = none });
}

-- What is returned for an event id that is in the table.
abbrev pub restored : Library → AuditEvent → Option AuditEvent → Result AuditError AuditEvent
restored lib event none = raised unreadable
restored lib event (some existing) =
    if str_eq (event_identity lib existing) (event_identity lib event)
    then ok existing
    else raised conflict

-- `append`, by the row that has the event's id: its insertion fails if there is one.
abbrev pub append_by :
    Library → AuditEvent → Log → Option AuditRow → Result AuditError AuditEvent × Log
append_by lib event rows none =
    (ok (finalized lib event (last_hash rows)), rows ++ row_for lib event (last_hash rows) ∷ [])
append_by lib event rows (some existing) = (restored lib event (lib.loads existing.payload), rows)

unfoldable pub append : Library → AuditEvent → Log → Result AuditError AuditEvent × Log
append lib event rows = append_by lib event rows (row_of event.event_id rows)

abbrev pub same_hash : Option String → Option String → Bool
same_hash none none = true
same_hash (some a) (some b) = str_eq a b
same_hash _ _ = false

-- One step of the loop of `verify_chain`.
abbrev pub row_verifies : Library → Option String → AuditRow → Option AuditEvent → Bool
row_verifies lib previous row none = false
row_verifies lib previous row (some event) =
    same_hash event.previous_hash previous
    && str_eq (compute_event_hash lib (record event { event_hash = none })) row.event_hash

abbrev pub verify_from : Library → Option String → Log → Bool
verify_from lib previous [] = true
verify_from lib previous (row ∷ rows) =
    row_verifies lib previous row (lib.loads row.payload)
    && verify_from lib (some row.event_hash) rows

unfoldable pub verify_chain : Library → Log → Bool
verify_chain lib rows = verify_from lib none rows
