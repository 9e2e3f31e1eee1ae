-- ===== src/Orchestration/Jobs/Tests.antt =====
-- The job queue at concrete inputs.
use engineering_intelligence.Base.{
  inl, ◌≡◌, ◌≢◌, ◌≤◌, ◌+◌, refl, true, false, none, some, [], ◌∷◌, arith,
}
use engineering_intelligence.Orchestration.Jobs.{
  Job, Queue, queued, leased, claim, enqueue, is_claimable,
}
use engineering_intelligence.Orchestration.Jobs.Claims.{Row}
use engineering_intelligence.Orchestration.Jobs.Leases.{
  claim_gives_earliest, claim_progresses, leased_once,
}

abbrev job_1 : Job
job_1 = record {
  job_id = "job-1";
  workflow_id = "wf-1";
  kind = "verify";
  payload = "{}";
  status = queued;
  attempts = 0;
  max_attempts = 1;
  not_before = 10;
  lease_until = none;
  last_error = none;
}

abbrev job_2 : Job
job_2 = record job_1 { job_id = "job-2"; not_before = 5 }

abbrev waiting : Queue
waiting = job_1 ∷ job_2 ∷ []

abbrev lease_2 : Job
lease_2 = record job_2 { status = leased; attempts = 1; lease_until = some 80 }

abbrev lease_1 : Job
lease_1 = record job_1 { status = leased; attempts = 1; lease_until = some 81 }

enqueue_twice : enqueue "job-1" "wf-2" "other" "{}" 5 0 waiting ≡ (false, waiting)
unfolding enqueue
enqueue_twice = refl

claim_job_2 : claim 60 20 waiting ≡ (some lease_2, job_1 ∷ lease_2 ∷ [])
unfolding claim
claim_job_2 = refl

claim_job_1 : claim 60 21 (job_1 ∷ lease_2 ∷ []) ≡ (some lease_1, lease_1 ∷ lease_2 ∷ [])
unfolding claim
claim_job_1 = refl

claim_after_lease :
    (claim 60 80 (lease_1 ∷ lease_2 ∷ [])).0
    ≡ some (record lease_2 { attempts = 2; lease_until = some 140 })
unfolding claim
claim_after_lease = refl

claim_gives_earliest_example :
    (row : Job) × Row row waiting
    × (is_claimable 20 row ≡ true)
    × ((other : Job)
        → Row other waiting
        → is_claimable 20 other ≡ true
        → row.not_before ≤ other.not_before)
    × ("job-2" ≡ row.job_id)
    × (leased ≡ leased)
    × (1 ≡ row.attempts + 1)
    × (lease_2.lease_until ≡ some 80)
claim_gives_earliest_example =
    claim_gives_earliest 60 20 waiting lease_2 (job_1 ∷ lease_2 ∷ []) claim_job_2

leased_once_example : "job-1" ≢ lease_2.job_id
leased_once_example =
    leased_once 60 20 waiting lease_2 (job_1 ∷ lease_2 ∷ []) 60 21 lease_1 (lease_1 ∷ lease_2 ∷ [])
      claim_job_2 (omega arith) claim_job_1

claim_progresses_example : (job : Job) × ((claim 60 20 waiting).0 ≡ some job)
claim_progresses_example = claim_progresses 60 20 waiting job_1 (inl refl) refl
