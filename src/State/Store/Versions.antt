-- ===== src/State/Store/Versions.antt =====
-- The versions of state/store.py: what a write checks, stores and gives back.
use engineering_intelligence.Base.{
  ℕ, ◌+◌, ◌==◌, ◌≡◌, refl, sym, ◌⊎◌, inl, String, false, Option, none, some, arith, eq_refl,
}
use engineering_intelligence.Base.Dict.{Dict, lookup, insert, lookup-insert}
use engineering_intelligence.Base.Result.{Result, ok, raised, both_return}
use engineering_intelligence.State.Models.{WorkflowRecord, ServiceRecord}
use engineering_intelligence.State.Payload.{
  Library, IsLossless, workflow_fields, workflow_of-fields, service_fields, service_of-fields,
}
use engineering_intelligence.State.Store.{
  Tables, StoreError, version_conflict, unexpected_version, row_to_workflow, row_to_service,
  get_workflow, put_workflow, write_workflow, assert_expected, version_of, next_version, immediate,
}

pub assert_expected-passed :
    (current expected : Option ℕ)
    → assert_expected current expected ≡ ok tt
    → (expected ≡ none) ⊎ (expected ≡ current)
unfolding assert_expected
assert_expected-passed current none h = inl refl
assert_expected-passed none (some e) h = cc
assert_expected-passed (some v) (some e) h = ground arith

-- A payload that was written is read back.
pub row_to_workflow-dumps :
    (lib : Library) (lossless : IsLossless lib) (r : WorkflowRecord)
    → row_to_workflow lib (lib.dumps (workflow_fields r)) ≡ ok r
unfolding row_to_workflow
row_to_workflow-dumps lib lossless r = rw (lossless (workflow_fields r), workflow_of-fields r) refl

pub row_to_service-dumps :
    (lib : Library) (lossless : IsLossless lib) (r : ServiceRecord)
    → row_to_service lib (lib.dumps (service_fields r)) ≡ ok r
unfolding row_to_service
row_to_service-dumps lib lossless r = rw (lossless (service_fields r), service_of-fields r) refl

pub lookup-inserted {ℓ} :
    {V : Type ℓ} (k : String) (v : V) (d : Dict V) → lookup k (insert k v d) ≡ some v
lookup-inserted k v d = rw (lookup-insert k k v d, eq_refl k) refl

pub get_workflow-written :
    (lib : Library) (lossless : IsLossless lib) (r : WorkflowRecord) (tables : Tables)
    → get_workflow lib r.workflow_id (write_workflow lib r tables) ≡ ok (some r)
unfolding get_workflow write_workflow
get_workflow-written lib lossless r tables =
    rw
      (
        lookup-inserted r.workflow_id
            (record { payload = lib.dumps (workflow_fields r); version = r.version })
            tables.workflows,
        row_to_workflow-dumps lib lossless r,
      )
      refl

-- A transaction that returned has committed what its body gave, and one that raised has kept the tables.
pub immediate-committed {ℓ} :
    {A : Type ℓ} (tables : Tables) (body : Result StoreError (A × Tables)) {a : A} {after : Tables}
    → immediate tables body ≡ (ok a, after)
    → body ≡ ok (a, after)
immediate-committed tables (raised e) h = cc
immediate-committed tables (ok returned) h = cc

pub immediate-rolled_back {ℓ} :
    {A : Type ℓ} (tables : Tables) (body : Result StoreError (A × Tables)) {e : StoreError}
    {after : Tables}
    → immediate tables body ≡ (raised e, after)
    → after ≡ tables
immediate-rolled_back tables (raised e) h = cc
immediate-rolled_back tables (ok returned) h = cc

-- The version that a write of a record finds.
abbrev pub current_version : String → Tables → Option ℕ
current_version workflow_id tables = version_of (lookup workflow_id tables.workflows)

pub current_version-written :
    (lib : Library) (r : WorkflowRecord) (tables : Tables)
    → current_version r.workflow_id (write_workflow lib r tables) ≡ some r.version
unfolding write_workflow
current_version-written lib r tables =
    rw
      (lookup-inserted r.workflow_id
        (record { payload = lib.dumps (workflow_fields r); version = r.version }) tables.workflows)
      refl

module _ (lib : Library) where
  pub put_workflow-returned :
      (r stored : WorkflowRecord) (expected : Option ℕ) (tables after : Tables)
      → put_workflow lib r expected tables ≡ (ok stored, after)
      → (assert_expected (current_version r.workflow_id tables) expected ≡ ok tt)
        × (stored ≡ record r { version = next_version (current_version r.workflow_id tables) })
        × (after ≡ write_workflow lib stored tables)
  unfolding put_workflow
  put_workflow-returned r stored expected tables after h =
      let returned =
        both_return (assert_expected (current_version r.workflow_id tables) expected)
          (λ _. ok (
            record r { version = next_version (current_version r.workflow_id tables) },
            write_workflow lib
                (record r { version = next_version (current_version r.workflow_id tables) }) tables,
          ))
          (immediate-committed tables _ h) in
      (returned.1, cc, cc)

  -- A write of a workflow record that returns was made at the expected version, if one was given. It
  -- stores the record at the next version, 1 for a new one, and a read then gives the stored record.
  pub put_workflow-get_workflow :
      (lossless : IsLossless lib) (r stored : WorkflowRecord) (expected : Option ℕ)
      (tables after : Tables)
      → put_workflow lib r expected tables ≡ (ok stored, after)
      → ((expected ≡ none) ⊎ (expected ≡ current_version r.workflow_id tables))
        × (stored ≡ record r { version = next_version (current_version r.workflow_id tables) })
        × (get_workflow lib r.workflow_id after ≡ ok (some stored))
  put_workflow-get_workflow lossless r stored expected tables after h =
      let returned = put_workflow-returned r stored expected tables after h in
      (
        assert_expected-passed (current_version r.workflow_id tables) expected returned.0,
        returned.1,
        (let same : stored.workflow_id ≡ r.workflow_id = rw returned.1 refl in
            rw (returned.2, sym same) (get_workflow-written lib lossless stored tables)),
      )

  stale_put :
      (r : WorkflowRecord) (version expected : ℕ) (tables : Tables)
      → current_version r.workflow_id tables ≡ some version
      → (version == expected) ≡ false
      → put_workflow lib r (some expected) tables
        ≡ (raised (version_conflict (unexpected_version (some version) expected)), tables)
  unfolding put_workflow assert_expected
  stale_put r version expected tables now other = rw (now, other) refl

  -- Of two writes of one workflow that expect the same version, of which the first returns, the second
  -- raises, whatever it would write, and the tables stay as the first left them.
  pub put_workflow-conflict :
      (r stored second : WorkflowRecord) (expected : ℕ) (tables after : Tables)
      → second.workflow_id ≡ r.workflow_id
      → put_workflow lib r (some expected) tables ≡ (ok stored, after)
      → put_workflow lib second (some expected) after
        ≡ (raised (version_conflict (unexpected_version (some (expected + 1)) expected)), after)
  put_workflow-conflict r stored second expected tables after same h =
      let returned = put_workflow-returned r stored (some expected) tables after h in
      let passed =
        assert_expected-passed (current_version r.workflow_id tables) (some expected) returned.0 in
      let found : current_version r.workflow_id tables ≡ some expected = ground arith in
      let id : second.workflow_id ≡ stored.workflow_id = rw (returned.1, same) refl in
      let version : stored.version ≡ expected + 1 = rw (returned.1, found) refl in
      let now : current_version second.workflow_id after ≡ some (expected + 1) =
        rw (returned.2, id, sym version) (current_version-written lib stored tables) in
      stale_put second (expected + 1) expected after now (ground arith)
