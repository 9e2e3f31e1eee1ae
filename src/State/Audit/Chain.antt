-- ===== src/State/Audit/Chain.antt =====
-- The audit log of state/audit.py: appending keeps the chain, and is idempotent.
use engineering_intelligence.Base.{
  ◌≡◌, ◌≢◌, refl, sym, ap, String, true, ◌&&◌, Option, none, some, [], ◌∷◌, ◌++◌, arith, eq_iff,
  eq_refl, str_eq, str_eq_ne,
}
use engineering_intelligence.Base.Result.{ok, raised}
use engineering_intelligence.State.Audit.{
  AuditEvent, AuditRow, conflict, Library, Log, compute_event_hash, event_identity, last_hash,
  last_hash_from, row_of, finalized, row_for, restored, append_by, append, same_hash, row_verifies,
  verify_from, verify_chain,
}

-- An event is read from a payload as it was written.
abbrev pub IsLossless : Library → Type 0
IsLossless lib = (event : AuditEvent) → lib.loads (lib.dumps event) ≡ some event

pub same_hash_eq : (a b : Option String) → same_hash a b ≡ true → a ≡ b
same_hash_eq none none h = refl
same_hash_eq (some a) (some b) h = ground (arith, eq_iff a b)
same_hash_eq none (some b) h = cc
same_hash_eq (some a) none h = cc

same_hash_refl : (a : Option String) → same_hash a a ≡ true
same_hash_refl none = refl
same_hash_refl (some a) = eq_refl a

-- The last row of a log is checked against the hash of the row before.
pub verify_from-snoc :
    (lib : Library) (previous : Option String) (rows : Log) (row : AuditRow)
    → verify_from lib previous (rows ++ row ∷ []) ≡ (
        verify_from lib previous rows
        && row_verifies lib (last_hash_from previous rows) row (lib.loads row.payload))
verify_from-snoc lib previous [] row = ground arith
verify_from-snoc lib previous (r ∷ rows) row =
    ground (arith, verify_from-snoc lib (some r.event_hash) rows row)

row_of-snoc :
    (event_id : String) (rows : Log) (row : AuditRow)
    → row_of event_id rows ≡ none
    → row.event_id ≡ event_id
    → row_of event_id (rows ++ row ∷ []) ≡ some row
row_of-snoc event_id [] row absent same = ground (arith, eq_iff row.event_id event_id)
row_of-snoc event_id (r ∷ rows) row absent same = ground (arith, row_of-snoc event_id rows row)

module _ (lib : Library) (lossless : IsLossless lib) where
  new_row_verifies :
      (event : AuditEvent) (previous : Option String)
      → row_verifies lib previous
          (row_for lib event previous)
          (lib.loads (lib.dumps (finalized lib event previous)))
        ≡ true
  new_row_verifies event previous =
      rw
        (
          lossless (finalized lib event previous),
          same_hash_refl previous,
          eq_refl (
              compute_event_hash lib
                (record event { previous_hash = previous; event_hash = none })),
        )
        refl

  append_by-verify_chain :
      (event : AuditEvent) (rows : Log) (existing : Option AuditRow)
      → verify_chain lib rows ≡ true
      → verify_chain lib (append_by lib event rows existing).1 ≡ true
  unfolding verify_chain last_hash
  append_by-verify_chain event rows (some existing) h = h
  append_by-verify_chain event rows none h =
      rw
        (
          verify_from-snoc lib none rows (row_for lib event (last_hash_from none rows)),
          h,
          new_row_verifies event (last_hash_from none rows),
        )
        refl

  -- Whatever is appended to a log that verifies, the log verifies afterwards, where JSON is read as it
  -- was written.
  pub append-verify_chain :
      (event : AuditEvent) (rows : Log)
      → verify_chain lib rows ≡ true
      → verify_chain lib (append lib event rows).1 ≡ true
  unfolding append
  append-verify_chain event rows h =
      append_by-verify_chain event rows (row_of event.event_id rows) h

  restored-returned :
      (event final : AuditEvent) (existing : Option AuditEvent)
      → restored lib event existing ≡ ok final
      → (existing ≡ some final) × (event_identity lib final ≡ event_identity lib event)
  restored-returned event final none h = cc
  restored-returned event final (some e) h =
      let parts : (str_eq (event_identity lib e) (event_identity lib event) ≡ true) × (e ≡ final) =
        ground arith in
      (
        ap some parts.1,
        rw (sym parts.1) ((eq_iff (event_identity lib e) (event_identity lib event)).0 parts.0),
      )

  -- A row that holds an event of this identity.
  pub Holds : AuditEvent → AuditEvent → AuditRow → Type 0
  Holds event final row =
      (lib.loads row.payload ≡ some final) × (event_identity lib final ≡ event_identity lib event)

  appended_by :
      (event final : AuditEvent) (rows after : Log) (existing : Option AuditRow)
      → row_of event.event_id rows ≡ existing
      → append_by lib event rows existing ≡ (ok final, after)
      → (row : AuditRow) × (row_of event.event_id after ≡ some row) × Holds event final row
  unfolding Holds
  appended_by event final rows after none absent h =
      let parts : (finalized lib event (last_hash rows) ≡ final)
          × (rows ++ row_for lib event (last_hash rows) ∷ [] ≡ after) =
        (cc, cc) in
      (
        row_for lib event (last_hash rows),
        rw (sym parts.1)
            (row_of-snoc event.event_id rows (row_for lib event (last_hash rows)) absent refl),
        (rw (sym parts.0) (lossless (finalized lib event (last_hash rows))), rw (sym parts.0) refl),
      )
  appended_by event final rows after (some row) found h =
      let parts : (restored lib event (lib.loads row.payload) ≡ ok final) × (rows ≡ after) =
        (cc, cc) in
      (row, rw (sym parts.1) found, restored-returned event final (lib.loads row.payload) parts.0)

  pub appended :
      (event final : AuditEvent) (rows after : Log)
      → append lib event rows ≡ (ok final, after)
      → (row : AuditRow) × (row_of event.event_id after ≡ some row) × Holds event final row
  unfolding append
  appended event final rows after h =
      appended_by event final rows after (row_of event.event_id rows) refl h

  append_held :
      (event final : AuditEvent) (rows : Log) (row : AuditRow)
      → row_of event.event_id rows ≡ some row
      → Holds event final row
      → append lib event rows ≡ (ok final, rows)
  unfolding append Holds
  append_held event final rows row found holds =
      rw (found, holds.0, holds.1, eq_refl (event_identity lib event)) refl

  -- Appending an event again, after a call that returned, gives the same event and changes nothing, where
  -- JSON is read as it was written.
  pub append-append :
      (event final : AuditEvent) (rows after : Log)
      → append lib event rows ≡ (ok final, after)
      → append lib event after ≡ (ok final, after)
  append-append event final rows after h =
      let held = appended event final rows after h in
      append_held event final after held.0 held.1 held.2

  append_differing :
      (event other final : AuditEvent) (rows : Log) (row : AuditRow)
      → row_of other.event_id rows ≡ some row
      → Holds event final row
      → event_identity lib event ≢ event_identity lib other
      → append lib other rows ≡ (raised conflict, rows)
  unfolding append Holds
  append_differing event other final rows row found holds differs =
      rw
        (
          found,
          holds.0,
          holds.1,
          str_eq_ne (event_identity lib event) (event_identity lib other) differs,
        )
        refl

  -- After an event was appended, every event of the same id and another identity is refused, and the log
  -- is left as it was, where JSON is read as it was written.
  pub reused_id_conflicts :
      (event other final : AuditEvent) (rows after : Log)
      → append lib event rows ≡ (ok final, after)
      → other.event_id ≡ event.event_id
      → event_identity lib event ≢ event_identity lib other
      → append lib other after ≡ (raised conflict, after)
  reused_id_conflicts event other final rows after h same differs =
      let held = appended event final rows after h in
      append_differing event other final after held.0 (rw same held.1) held.2 differs
