-- ===== src/Orchestration/Jobs/Claims.antt =====
-- What the calls of orchestration/jobs.py give a worker.
use engineering_intelligence.Base.{
  ℕ, ◌≤◌, ◌≡◌, refl, sym, ◌∙◌, ◌⊎◌, inl, inr, true, false, Option, none, some, [], ◌∷◌, arith,
  Bool-cases,
}
use engineering_intelligence.Orchestration.Jobs.{
  Job, Queue, is_claimable, comes_first, first_of, select,
}

-- The job is a row of the table.
abbrev pub Row : Job → Queue → Type 0
Row job [] = ⊥
Row job (x ∷ queue) = (job ≡ x) ⊎ Row job queue

first_of-either :
    (job : Job) (o : Option Job) (row : Job)
    → first_of job o ≡ some row
    → (job ≡ row) ⊎ (o ≡ some row)
first_of-either job none row h = inl cc
first_of-either job (some other) row h = elim (Bool-cases (comes_first job other)) [
  | inl first ↦ inl (ground arith)
  | inr later ↦ inr (ground arith)
]

first_of_finds : (job : Job) (o : Option Job) → (row : Job) × (first_of job o ≡ some row)
first_of_finds job none = (job, refl)
first_of_finds job (some other) = elim (Bool-cases (comes_first job other)) [
  | inl first ↦ (job, rw first refl)
  | inr later ↦ (other, rw later refl)
]

comes_first-not_before : (a b : Job) → (comes_first a b ≡ true) → a.not_before ≤ b.not_before
comes_first-not_before a b h = ground arith

comes_first_otherwise : (a b : Job) → (comes_first a b ≡ false) → b.not_before ≤ a.not_before
comes_first_otherwise a b h = ground arith

first_of-not_before :
    (job : Job) (o : Option Job) (row : Job)
    → first_of job o ≡ some row
    → (row.not_before ≤ job.not_before)
      × ((other : Job) → o ≡ some other → row.not_before ≤ other.not_before)
first_of-not_before job none row h =
    let same : job ≡ row = cc in (rw (sym same) (omega arith), λ other e. absurd (ground arith))
first_of-not_before job (some best) row h = elim (Bool-cases (comes_first job best)) [
  | inl first ↦
      let same : job ≡ row = ground arith in
      (
        rw (sym same) (omega arith),
        λ other e.
            (let is : best ≡ other = cc in
              rw (sym same, sym is) (comes_first-not_before job best first)),
      )
  | inr later ↦
      let same : best ≡ row = ground arith in
      (
        rw (sym same) (comes_first_otherwise job best later),
        λ other e. (let is : best ≡ other = cc in rw (sym same, sym is) (omega arith)),
      )
]

select_claimable :
    (now : ℕ) (job : Job) (queue : Queue)
    → is_claimable now job ≡ true
    → select now (job ∷ queue) ≡ first_of job (select now queue)
select_claimable now job queue c = rw c refl

select_other :
    (now : ℕ) (job : Job) (queue : Queue)
    → is_claimable now job ≡ false
    → select now (job ∷ queue) ≡ select now queue
select_other now job queue c = rw c refl

pub select-is_claimable :
    (now : ℕ) (queue : Queue) (row : Job)
    → select now queue ≡ some row
    → (is_claimable now row ≡ true) × Row row queue
select-is_claimable now [] row h = cc
select-is_claimable now (job ∷ queue) row h = elim (Bool-cases (is_claimable now job)) [
  | inl c ↦
      elim (first_of-either job (select now queue) row
        (sym (select_claimable now job queue c) ∙ h)) [
          | inl same ↦ (rw (sym same) c, inl (sym same))
          | inr rest ↦ let known = select-is_claimable now queue row rest in (known.0, inr known.1)
        ]
  | inr n ↦
      let known = select-is_claimable now queue row (sym (select_other now job queue n) ∙ h) in
      (known.0, inr known.1)
]

-- Where a job can be claimed, one is selected.
pub select_finds :
    (now : ℕ) (queue : Queue) (other : Job)
    → Row other queue
    → is_claimable now other ≡ true
    → (row : Job) × (select now queue ≡ some row)
select_finds now [] other m c = absurd m
select_finds now (job ∷ queue) other m c = elim (Bool-cases (is_claimable now job)) [
  | inl here ↦
      let found = first_of_finds job (select now queue) in
      (found.0, select_claimable now job queue here ∙ found.1)
  | inr passed ↦ elim m [
    | inl same ↦ absurd (ground arith)
    | inr rest ↦
        let found = select_finds now queue other rest c in
        (found.0, select_other now job queue passed ∙ found.1)
  ]
]

pub select-not_before :
    (now : ℕ) (queue : Queue) (row other : Job)
    → select now queue ≡ some row
    → Row other queue
    → is_claimable now other ≡ true
    → row.not_before ≤ other.not_before
select-not_before now [] row other h m c = absurd m
select-not_before now (job ∷ queue) row other h m c = elim (Bool-cases (is_claimable now job)) [
  | inl here ↦
      let known =
        first_of-not_before job (select now queue) row
          (sym (select_claimable now job queue here) ∙ h) in
      elim m [
        | inl same ↦ rw same known.0
        | inr rest ↦
            let found = select_finds now queue other rest c in
            omega (
              arith,
              known.1 found.0 found.1,
              select-not_before now queue found.0 other found.1 rest c,
            )
      ]
  | inr passed ↦ elim m [
    | inl same ↦ absurd (ground arith)
    | inr rest ↦
        select-not_before now queue row other (sym (select_other now job queue passed) ∙ h) rest c
  ]
]
