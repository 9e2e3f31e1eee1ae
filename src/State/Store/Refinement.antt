-- ===== src/State/Store/Refinement.antt =====
-- The workflows of state/store.py as a map: what any sequence of its reads and writes answers.
use engineering_intelligence.Base.{
  ℕ, ◌+◌, String, Option, none, some, List, [], ◌∷◌, ◌≡◌, refl, ap, ◌∙◌, str_eq, ◌==◌,
  if◌then◌else◌, inl, inr, Bool-cases,
}
use engineering_intelligence.Base.Dict.{lookup, lookup-insert}
use engineering_intelligence.Base.Result.{Result, ok, raised, ◌>>=◌}
use engineering_intelligence.State.Models.{WorkflowRecord}
use engineering_intelligence.State.Payload.{Library, IsLossless, workflow_fields}
use engineering_intelligence.State.Store.{
  Row, Tables, StoreError, version_conflict, unexpected_version, read_row, row_to_workflow,
  get_workflow, put_workflow, write_workflow, assert_expected, version_of, next_version,
  record_version, immediate,
}
use engineering_intelligence.State.Store.Versions.{row_to_workflow-dumps}

-- The contract: each workflow identifier has one record or none.
abbrev pub Workflows : Type 0
Workflows = String → Option WorkflowRecord

pub data Call : Type 0 where
  read : String → Call
  write : WorkflowRecord → Option ℕ → Call

pub data Answer : Type 0 where
  was_read : Result StoreError (Option WorkflowRecord) → Answer
  was_written : Result StoreError WorkflowRecord → Answer

-- Why a write is refused, by the version that there is and the one that is expected.
abbrev pub refusal : Option ℕ → Option ℕ → Option StoreError
refusal current none = none
refusal none (some expected) = some (version_conflict (unexpected_version none expected))
refusal (some version) (some expected) =
    if version == expected
    then none
    else some (version_conflict (unexpected_version (some version) expected))

abbrev pub numbered : WorkflowRecord → Option WorkflowRecord → WorkflowRecord
numbered r none = record r { version = 1 }
numbered r (some current) = record r { version = current.version + 1 }

abbrev pub updated : WorkflowRecord → Workflows → Workflows
updated r workflows id = if str_eq r.workflow_id id then some r else workflows id

abbrev pub written :
    Option StoreError → WorkflowRecord → Workflows → Result StoreError WorkflowRecord × Workflows
written (some e) r workflows = (raised e, workflows)
written none r workflows = (ok r, updated r workflows)

-- A write compares and swaps; a read gives what there is.
abbrev pub specified : Call → Workflows → Answer × Workflows
specified (read id) workflows = (was_read (ok (workflows id)), workflows)
specified (write r expected) workflows =
    let current = workflows r.workflow_id in
    let done = written (refusal (record_version current) expected) (numbered r current) workflows in
    (was_written done.0, done.1)

abbrev pub stored : Library → Call → Tables → Answer × Tables
stored lib (read id) tables = (was_read (get_workflow lib id tables), tables)
stored lib (write r expected) tables =
    let done = put_workflow lib r expected tables in (was_written done.0, done.1)

-- The answers of a sequence of calls.
abbrev pub answers : {S : Type 0} → (Call → S → Answer × S) → List Call → S → List Answer
answers step [] s = []
answers step (call ∷ calls) s = (step call s).0 ∷ answers step calls (step call s).1

abbrev row_for : Library → Option WorkflowRecord → Option Row
row_for lib none = none
row_for lib (some r) =
    some (record { payload = lib.dumps (workflow_fields r); version = r.version })

-- The table holds the rows of the map.
abbrev pub Reflects : Library → Tables → Workflows → Type 0
Reflects lib tables workflows =
    (id : String) → lookup id tables.workflows ≡ row_for lib (workflows id)

module _ (lib : Library) (lossless : IsLossless lib) where
  read_row-for : (o : Option WorkflowRecord) → read_row (row_to_workflow lib) (row_for lib o) ≡ ok o
  read_row-for none = refl
  read_row-for (some r) = rw (row_to_workflow-dumps lib lossless r) refl

  version_of-row : (o : Option WorkflowRecord) → version_of (row_for lib o) ≡ record_version o
  version_of-row none = refl
  version_of-row (some r) = refl

  next_numbered :
      (r : WorkflowRecord) (o : Option WorkflowRecord)
      → record r { version = next_version (record_version o) } ≡ numbered r o
  next_numbered r none = refl
  next_numbered r (some current) = refl

  row-updated :
      (r : WorkflowRecord) (tables : Tables) (workflows : Workflows)
      → Reflects lib tables workflows
      → Reflects lib (write_workflow lib r tables) (updated r workflows)
  unfolding write_workflow
  row-updated r tables workflows reflects id =
      lookup-insert r.workflow_id id
        (record { payload = lib.dumps (workflow_fields r); version = r.version }) tables.workflows
      ∙ elim (Bool-cases (str_eq r.workflow_id id)) [
        | inl same ↦ rw same refl
        | inr other ↦ rw other (reflects id)
      ]

  put_by :
      (current expected : Option ℕ) (r : WorkflowRecord) (tables : Tables) (workflows : Workflows)
      → Reflects lib tables workflows
      → let done =
          immediate tables
            (assert_expected current expected >>= (λ _. ok (r, write_workflow lib r tables))) in
        (done.0 ≡ (written (refusal current expected) r workflows).0)
        × Reflects lib done.1 (written (refusal current expected) r workflows).1
  unfolding assert_expected
  put_by current none r tables workflows reflects = (refl, row-updated r tables workflows reflects)
  put_by none (some e) r tables workflows reflects = (refl, reflects)
  put_by (some v) (some e) r tables workflows reflects = elim (Bool-cases (v == e)) [
    | inl same ↦ rw same (refl, row-updated r tables workflows reflects)
    | inr other ↦ rw other (refl, reflects)
  ]

  step_refines :
      (call : Call) (tables : Tables) (workflows : Workflows)
      → Reflects lib tables workflows
      → ((stored lib call tables).0 ≡ (specified call workflows).0)
        × Reflects lib (stored lib call tables).1 (specified call workflows).1
  unfolding get_workflow put_workflow
  step_refines (read id) tables workflows reflects =
      (ap was_read (rw (reflects id) (read_row-for (workflows id))), reflects)
  step_refines (write r expected) tables workflows reflects =
      let o = workflows r.workflow_id in
      let now : version_of (lookup r.workflow_id tables.workflows) ≡ record_version o =
        ap version_of (reflects r.workflow_id) ∙ version_of-row o in
      let (same, kept) =
        put_by (record_version o) expected (numbered r o) tables workflows reflects in
      rw (now, next_numbered r o) (ap was_written same, kept)

  -- Any sequence of reads and writes of workflows answers as the map of records would, whose writes
  -- compare the expected version and swap in the record at the next one. JSON is read as it was written.
  pub answers_refine :
      (calls : List Call) (tables : Tables) (workflows : Workflows)
      → Reflects lib tables workflows
      → answers (stored lib) calls tables ≡ answers specified calls workflows
  answers_refine [] tables workflows reflects = refl
  answers_refine (call ∷ calls) tables workflows reflects =
      let (same, kept) = step_refines call tables workflows reflects in
      rw (same, answers_refine calls (stored lib call tables).1 (specified call workflows).1 kept)
        refl
