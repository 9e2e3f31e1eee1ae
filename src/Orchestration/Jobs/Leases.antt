-- ===== src/Orchestration/Jobs/Leases.antt =====
-- The leases of orchestration/jobs.py: which job a call of `claim` gives, and which it never gives.
use engineering_intelligence.Base.{
  if◌then◌else◌, ℕ, ◌+◌, ◌≤◌, ◌<◌, ◌≡◌, ◌≢◌, refl, sym, ap, ◌∙◌, inl, inr, String, true, false,
  Option, none, some, [], ◌∷◌, arith, eq_iff, str_eq, leb, Bool-cases,
}
use engineering_intelligence.Orchestration.Jobs.{
  Job, leased, dead_letter, Queue, get, update, is_claimable, select, take_lease, lease_row, claim,
  complete, put_back, fail,
}
use engineering_intelligence.Orchestration.Jobs.Claims.{
  Row, select-is_claimable, select_finds, select-not_before,
}

get-Row :
    (job_id : String) (queue : Queue) (job : Job)
    → get job_id queue ≡ some job
    → (job.job_id ≡ job_id) × Row job queue
get-Row job_id [] job h = cc
get-Row job_id (x ∷ queue) job h = elim (Bool-cases (str_eq x.job_id job_id)) [
  | inl same ↦
      let is : x ≡ job = ground arith in
      (rw (sym is) ((eq_iff x.job_id job_id).0 same), inl (sym is))
  | inr other ↦ let rest = get-Row job_id queue job (ground arith) in (rest.0, inr rest.1)
]

clash : (true ≡ false) → ⊥
clash h = cc

differ :
    (x job : Job) (job_id : String)
    → str_eq x.job_id job_id ≡ false
    → job ≡ x
    → job.job_id ≡ job_id
    → ⊥
differ x job job_id other is same =
    clash (sym ((eq_iff x.job_id job_id).1 (sym (ap (λ j. j.job_id) is) ∙ same)) ∙ other)

-- A change that keeps the identifiers.
abbrev pub KeepsId : (Job → Job) → Type 0
KeepsId change = (job : Job) → (change job).job_id ≡ job.job_id

update-Row :
    (job_id : String) (change : Job → Job) (queue : Queue) (job : Job)
    → KeepsId change
    → Row job (update job_id change queue)
    → job.job_id ≡ job_id
    → (before : Job) × (job ≡ change before)
update-Row job_id change [] job keeps m same = absurd m
update-Row job_id change (x ∷ queue) job keeps (inr m) same =
    update-Row job_id change queue job keeps m same
update-Row job_id change (x ∷ queue) job keeps (inl is) same =
    elim (Bool-cases (str_eq x.job_id job_id)) [
      | inl here ↦ (x, is ∙ rw here refl)
      | inr other ↦ absurd (differ x job job_id other (is ∙ rw other refl) same)
    ]

-- What a call of `claim` that gave a job has done.
abbrev pub Claimed : ℕ → ℕ → Queue → Job → Queue → Type 0
Claimed lease_seconds now queue job after =
    (row : Job) × (select now queue ≡ some row)
    × (after ≡ update row.job_id (take_lease (row.attempts + 1) (now + lease_seconds)) queue)
    × (get row.job_id after ≡ some job)

lease_row-Claimed :
    (lease_seconds now : ℕ) (queue : Queue) (row : Option Job) (job : Job) (after : Queue)
    → select now queue ≡ row
    → lease_row (now + lease_seconds) queue row ≡ (some job, after)
    → Claimed lease_seconds now queue job after
lease_row-Claimed lease_seconds now queue none job after found h = absurd (ground arith)
lease_row-Claimed lease_seconds now queue (some row) job after found h =
    let is : update row.job_id (take_lease (row.attempts + 1) (now + lease_seconds)) queue ≡ after =
      cc in
    (row, found, sym is, cc)

claim-Claimed :
    (lease_seconds now : ℕ) (queue : Queue) (job : Job) (after : Queue)
    → claim lease_seconds now queue ≡ (some job, after)
    → Claimed lease_seconds now queue job after
unfolding claim
claim-Claimed lease_seconds now queue job after h =
    lease_row-Claimed lease_seconds now queue (select now queue) job after refl h

-- A job that `claim` gives could be claimed, and no job that could be was to run before it. It is now
-- leased until the end of its lease, by one attempt more than the row had that was selected.
pub claim_gives_earliest :
    (lease_seconds now : ℕ) (queue : Queue) (job : Job) (after : Queue)
    → claim lease_seconds now queue ≡ (some job, after)
    → (row : Job) × Row row queue
      × (is_claimable now row ≡ true)
      × ((other : Job)
          → Row other queue
          → is_claimable now other ≡ true
          → row.not_before ≤ other.not_before)
      × (job.job_id ≡ row.job_id)
      × (job.status ≡ leased)
      × (job.attempts ≡ row.attempts + 1)
      × (job.lease_until ≡ some (now + lease_seconds))
claim_gives_earliest lease_seconds now queue job after h =
    let (row, selected, is, found) = claim-Claimed lease_seconds now queue job after h in
    let known = select-is_claimable now queue row selected in
    let given = get-Row row.job_id after job found in
    let changed =
      update-Row row.job_id (take_lease (row.attempts + 1) (now + lease_seconds)) queue job
        (λ x. refl) (rw (sym is) given.1) given.0 in
    (
      row,
      known.1,
      known.0,
      λ other m c. select-not_before now queue row other selected m c,
      given.0,
      rw changed.1 refl,
      rw changed.1 refl,
      rw changed.1 refl,
    )

-- After a change that leaves the jobs of an identifier such that they cannot be claimed, none is.
claim_spares :
    (job_id : String) (change : Job → Job) (lease_seconds now : ℕ) (queue : Queue) (job : Job)
    (after : Queue)
    → KeepsId change
    → ((x : Job) → is_claimable now (change x) ≡ false)
    → claim lease_seconds now (update job_id change queue) ≡ (some job, after)
    → job.job_id ≢ job_id
claim_spares job_id change lease_seconds now queue job after keeps closed h same =
    let (row, selected, is, found) =
      claim-Claimed lease_seconds now (update job_id change queue) job after h in
    let known = select-is_claimable now (update job_id change queue) row selected in
    let given = get-Row row.job_id after job found in
    let before = update-Row job_id change queue row keeps known.1 (sym given.0 ∙ same) in
    clash (sym known.0 ∙ ap (is_claimable now) before.1 ∙ closed before.0)

-- While the lease of a claimed job runs, the next call of `claim` on the table does not give it again.
pub leased_once :
    (lease_seconds now : ℕ) (queue : Queue) (job : Job) (after : Queue) (next_lease later : ℕ)
    (other : Job) (last : Queue)
    → claim lease_seconds now queue ≡ (some job, after)
    → later < now + lease_seconds
    → claim next_lease later after ≡ (some other, last)
    → other.job_id ≢ job.job_id
leased_once lease_seconds now queue job after next_lease later other last h running h' same =
    let (row, selected, is, found) = claim-Claimed lease_seconds now queue job after h in
    let given = get-Row row.job_id after job found in
    claim_spares row.job_id (take_lease (row.attempts + 1) (now + lease_seconds)) next_lease later
      queue other last (λ x. refl) (λ x. ground arith) (rw (sym is) h') (same ∙ given.0)

-- After a job was completed, the next call of `claim` does not give it, at any time.
pub completed_stays :
    (job_id : String) (lease_seconds now : ℕ) (queue : Queue) (job : Job) (after : Queue)
    → claim lease_seconds now (complete job_id queue) ≡ (some job, after)
    → job.job_id ≢ job_id
unfolding complete
completed_stays job_id lease_seconds now queue job after h =
    claim_spares job_id _ lease_seconds now queue job after (λ x. refl) (λ x. refl) h

fail-exhausted :
    (job_id message : String) (backoff now : ℕ) (queue : Queue) (failing : Job)
    → get job_id queue ≡ some failing
    → failing.max_attempts ≤ failing.attempts
    → (fail job_id message backoff now queue).1
      ≡ update job_id (put_back dead_letter now message) queue
unfolding fail
fail-exhausted job_id message backoff now queue failing found spent =
    let over : leb failing.max_attempts failing.attempts ≡ true = ground arith in
    rw (found, over) refl

-- After a job failed that had used its attempts, the next call of `claim` does not give it, at any time.
pub exhausted_is_dead :
    (job_id message : String) (backoff failed_at : ℕ) (queue : Queue) (failing : Job)
    (lease_seconds now : ℕ) (job : Job) (after : Queue)
    → get job_id queue ≡ some failing
    → failing.max_attempts ≤ failing.attempts
    → claim lease_seconds now (fail job_id message backoff failed_at queue).1 ≡ (some job, after)
    → job.job_id ≢ job_id
exhausted_is_dead job_id message backoff failed_at queue failing lease_seconds now job after found
      spent h =
    claim_spares job_id (put_back dead_letter failed_at message) lease_seconds now queue job after
      (λ x. refl) (λ x. refl)
      (ap (claim lease_seconds now)
          (sym (fail-exhausted job_id message backoff failed_at queue failing found spent))
        ∙ h)

head_id :
    (x row : Job) (job_id : String) (change : Job → Job)
    → KeepsId change
    → row ≡ x
    → str_eq (if str_eq x.job_id job_id then change x else x).job_id row.job_id ≡ true
head_id x row job_id change keeps same = elim (Bool-cases (str_eq x.job_id job_id)) [
  | inl here ↦
      rw here ((eq_iff (change x).job_id row.job_id).1 (keeps x ∙ sym (ap (λ j. j.job_id) same)))
  | inr other ↦ rw other ((eq_iff x.job_id row.job_id).1 (sym (ap (λ j. j.job_id) same)))
]

-- A row that is in the table is found, whatever was changed.
get-update :
    (row : Job) (job_id : String) (change : Job → Job) (queue : Queue)
    → KeepsId change
    → Row row queue
    → (job : Job) × (get row.job_id (update job_id change queue) ≡ some job)
get-update row job_id change [] keeps m = absurd m
get-update row job_id change (x ∷ queue) keeps m =
    let head = if str_eq x.job_id job_id then change x else x in
    elim (Bool-cases (str_eq head.job_id row.job_id)) [
      | inl here ↦ (head, rw here refl)
      | inr other ↦ elim m [
        | inl same ↦ absurd (clash (sym (head_id x row job_id change keeps same) ∙ other))
        | inr rest ↦
            let found = get-update row job_id change queue keeps rest in (found.0, rw other found.1)
      ]
    ]

lease_row_gives :
    (until : ℕ) (queue : Queue) (row : Job)
    → Row row queue
    → (job : Job) × ((lease_row until queue (some row)).0 ≡ some job)
lease_row_gives until queue row m =
    get-update row row.job_id (take_lease (row.attempts + 1) until) queue (λ x. refl) m

-- Where a row of the table can be claimed, a call of `claim` gives a job.
pub claim_progresses :
    (lease_seconds now : ℕ) (queue : Queue) (row : Job)
    → Row row queue
    → is_claimable now row ≡ true
    → (job : Job) × ((claim lease_seconds now queue).0 ≡ some job)
unfolding claim
claim_progresses lease_seconds now queue row m c =
    let (best, selected) = select_finds now queue row m c in
    let given =
      lease_row_gives (now + lease_seconds) queue best
        (select-is_claimable now queue best selected).1 in
    (given.0, ap (λ o. (lease_row (now + lease_seconds) queue o).0) selected ∙ given.1)
