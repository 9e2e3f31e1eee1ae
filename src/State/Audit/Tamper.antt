-- ===== src/State/Audit/Tamper.antt =====
-- What the last hash of the audit log of state/audit.py fixes.
use engineering_intelligence.Base.{
  ◌≡◌, refl, sym, ap, ◌∙◌, String, Bool, true, ◌&&◌, Option, none, some, List, [], ◌∷◌, arith,
  eq_iff,
}
use engineering_intelligence.State.Audit.{
  AuditEvent, AuditRow, Library, Log, compute_event_hash, last_hash, last_hash_from, row_verifies,
  verify_from, verify_chain,
}
use engineering_intelligence.State.Audit.Chain.{same_hash_eq}

-- What an event says, without its own hash.
abbrev pub content : AuditEvent → AuditEvent
content event = record event { event_hash = none }

abbrev pub content_of : Option AuditEvent → Option AuditEvent
content_of none = none
content_of (some event) = some (content event)

-- The hash of each row, with what its event says.
abbrev pub contents : Library → Log → List (String × Option AuditEvent)
contents lib [] = []
contents lib (row ∷ rows) = (row.event_hash, content_of (lib.loads row.payload)) ∷ contents lib rows

abbrev onto : Log → Log → Log
onto [] done = done
onto (row ∷ rows) done = onto rows (row ∷ done)

abbrev pub newest_first : Log → Log
newest_first rows = onto rows []

-- SHA-256 of canonical JSON tells the contents of events apart.
abbrev pub IsCollisionFree : Library → Type 0
IsCollisionFree lib =
    (e e' : AuditEvent)
    → compute_event_hash lib e ≡ compute_event_hash lib e'
    → content e ≡ content e'

-- The hash of the newest row, and the check of a log that is read backwards.
abbrev tip : Log → Option String
tip [] = none
tip (row ∷ rows) = some row.event_hash

abbrev verify_back : Library → Log → Bool
verify_back lib [] = true
verify_back lib (row ∷ rows) =
    row_verifies lib (tip rows) row (lib.loads row.payload) && verify_back lib rows

verify_back-onto :
    (lib : Library) (rows done : Log)
    → verify_back lib done ≡ true
    → verify_from lib (tip done) rows ≡ true
    → verify_back lib (onto rows done) ≡ true
verify_back-onto lib [] done h v = h
verify_back-onto lib (row ∷ rows) done h v =
    verify_back-onto lib rows (row ∷ done) (ground arith) (ground arith)

tip-onto : (rows done : Log) → tip (onto rows done) ≡ last_hash_from (tip done) rows
tip-onto [] done = refl
tip-onto (row ∷ rows) done = tip-onto rows (row ∷ done)

-- What a row that verifies holds.
row_event :
    (lib : Library) (previous : Option String) (row : AuditRow) (read : Option AuditEvent)
    → row_verifies lib previous row read ≡ true
    → (event : AuditEvent) × (read ≡ some event)
      × (event.previous_hash ≡ previous)
      × (compute_event_hash lib event ≡ row.event_hash)
row_event lib previous row none h = cc
row_event lib previous row (some event) h = (
  event,
  refl,
  same_hash_eq event.previous_hash previous (ground arith),
  (eq_iff (compute_event_hash lib event) row.event_hash).0 (ground arith),
)

module _ (lib : Library) (collision_free : IsCollisionFree lib) where
  same_back :
      (p q : Log)
      → verify_back lib p ≡ true
      → verify_back lib q ≡ true
      → tip p ≡ tip q
      → contents lib p ≡ contents lib q
  same_back [] [] v w same = refl
  same_back [] (row ∷ q) v w same = cc
  same_back (row ∷ p) [] v w same = cc
  same_back (row ∷ p) (row' ∷ q) v w same =
      let a = row_event lib (tip p) row (lib.loads row.payload) (ground arith) in
      let b = row_event lib (tip q) row' (lib.loads row'.payload) (ground arith) in
      let hashes : row.event_hash ≡ row'.event_hash = cc in
      let events : content a.0 ≡ content b.0 = collision_free a.0 b.0 (a.3 ∙ hashes ∙ sym b.3) in
      let tips : tip p ≡ tip q = sym a.2 ∙ ap (λ e. e.previous_hash) events ∙ b.2 in
      let older = same_back p q (ground arith) (ground arith) tips in
      rw (a.1, b.1, events, hashes, older) refl

  -- Two logs that both verify and end with the same hash have the same hashes in their rows, in the same
  -- order, and events that agree in every field but the copy of its own hash that an event carries, which
  -- the verification does not read. SHA-256 has no collision.
  pub last_hash_fixes_log :
      (rows rows' : Log)
      → verify_chain lib rows ≡ true
      → verify_chain lib rows' ≡ true
      → last_hash rows ≡ last_hash rows'
      → contents lib (newest_first rows) ≡ contents lib (newest_first rows')
  unfolding verify_chain last_hash
  last_hash_fixes_log rows rows' v w same =
      same_back (newest_first rows) (newest_first rows') (verify_back-onto lib rows [] refl v)
        (verify_back-onto lib rows' [] refl w) (tip-onto rows [] ∙ same ∙ sym (tip-onto rows' []))
