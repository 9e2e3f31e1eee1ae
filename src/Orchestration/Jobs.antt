-- ===== src/Orchestration/Jobs.antt =====
-- orchestration/jobs.py: the durable queue. Its table is the list of its rows. Times, which the code has
-- as floats of seconds, are natural numbers of one unit, and so are a lease and a backoff. A payload is its
-- JSON text, and an error the message that is stored of it. Connections and the schema are SQLite's.
pub mod Claims
pub mod Leases
mod Tests
use Prim.Native.String.{compare}
use text.Mathlib.Text.{is_le}
use engineering_intelligence.Base.{
  ℕ, ◌+◌, ◌-◌, ◌*◌, ◌^◌, String, Bool, true, false, ◌&&◌, ◌||◌, Option, none, some, List, [], ◌∷◌,
  ◌++◌, ◌==◌, leb, ltb, str_eq, if◌then◌else◌,
}
use engineering_intelligence.Base.Result.{Result, ok, raised}

pub data JobStatus : Type 0 where
  queued leased completed dead_letter : JobStatus

pub record Job : Type 0 where
  pub job_id : String
  pub workflow_id : String
  pub kind : String
  pub payload : String
  pub status : JobStatus
  pub attempts : ℕ
  pub max_attempts : ℕ
  pub not_before : ℕ
  pub lease_until : Option ℕ
  pub last_error : Option String

abbrev pub Queue : Type 0
Queue = List Job

-- `WHERE job_id=?`, which finds a row at most, as the column is the primary key.
abbrev pub get : String → Queue → Option Job
get job_id [] = none
get job_id (job ∷ queue) = if str_eq job.job_id job_id then some job else get job_id queue

-- `UPDATE jobs ... WHERE job_id=?`
abbrev pub update : String → (Job → Job) → Queue → Queue
update job_id change [] = []
update job_id change (job ∷ queue) =
    (if str_eq job.job_id job_id then change job else job) ∷ update job_id change queue

abbrev pub inserted : Job → Queue → Option Job → Bool × Queue
inserted job queue none = (true, queue ++ job ∷ [])
inserted job queue (some existing) = (false, queue)

-- `not_before` is the time of the call where it is not given.
unfoldable pub enqueue : String → String → String → String → ℕ → ℕ → Queue → Bool × Queue
enqueue job_id workflow_id kind payload max_attempts not_before queue =
    inserted
      (record {
        job_id = job_id;
        workflow_id = workflow_id;
        kind = kind;
        payload = payload;
        status = queued;
        attempts = 0;
        max_attempts = max_attempts;
        not_before = not_before;
        lease_until = none;
        last_error = none;
      })
      queue (get job_id queue)

-- `lease_until IS NULL OR lease_until <= ?`
abbrev pub lease_over : ℕ → Option ℕ → Bool
lease_over now none = true
lease_over now (some until) = leb until now

abbrev pub claimable_status : ℕ → JobStatus → Option ℕ → Bool
claimable_status now queued lease_until = true
claimable_status now leased lease_until = lease_over now lease_until
claimable_status now completed lease_until = false
claimable_status now dead_letter lease_until = false

-- The condition of the query of `claim`.
abbrev pub is_claimable : ℕ → Job → Bool
is_claimable now job = claimable_status now job.status job.lease_until && leb job.not_before now

-- `ORDER BY not_before, job_id`
abbrev pub comes_first : Job → Job → Bool
comes_first a b =
    ltb a.not_before b.not_before
    || a.not_before == b.not_before && is_le (compare a.job_id b.job_id)

abbrev pub first_of : Job → Option Job → Option Job
first_of job none = some job
first_of job (some other) = if comes_first job other then some job else some other

abbrev pub select : ℕ → Queue → Option Job
select now [] = none
select now (job ∷ queue) =
    let rest = select now queue in if is_claimable now job then first_of job rest else rest

abbrev pub take_lease : ℕ → ℕ → Job → Job
take_lease attempts until job = record job {
  status = leased;
  attempts = attempts;
  lease_until = some until;
}

abbrev pub lease_row : ℕ → Queue → Option Job → Option Job × Queue
lease_row until queue none = (none, queue)
lease_row until queue (some row) =
    let after = update row.job_id (take_lease (row.attempts + 1) until) queue in
    (get row.job_id after, after)

unfoldable pub claim : ℕ → ℕ → Queue → Option Job × Queue
claim lease_seconds now queue = lease_row (now + lease_seconds) queue (select now queue)

unfoldable pub complete : String → Queue → Queue
complete job_id queue =
    update job_id (λ job. record job { status = completed; lease_until = none; last_error = none })
      queue

abbrev pub put_back : JobStatus → ℕ → String → Job → Job
put_back status not_before message job = record job {
  status = status;
  not_before = not_before;
  lease_until = none;
  last_error = some message;
}

-- A job that failed is put back, or given up after its last attempt.
abbrev pub after_failure : ℕ → ℕ → String → Job → Job → Job
after_failure now backoff message job =
    if leb job.max_attempts job.attempts
    then put_back dead_letter now message
    else put_back queued (now + backoff * 2 ^ (job.attempts - 1)) message

pub data JobError : Type 0 where
  key_error failed_assertion : JobError

abbrev pub or_raise : JobError → Option Job → Result JobError Job
or_raise e none = raised e
or_raise e (some job) = ok job

abbrev pub fail_job : String → String → ℕ → ℕ → Queue → Option Job → Result JobError Job × Queue
fail_job job_id message backoff now queue none = (raised key_error, queue)
fail_job job_id message backoff now queue (some job) =
    let after = update job_id (after_failure now backoff message job) queue in
    (or_raise failed_assertion (get job_id after), after)

unfoldable pub fail : String → String → ℕ → ℕ → Queue → Result JobError Job × Queue
fail job_id message backoff now queue = fail_job job_id message backoff now queue (get job_id queue)
