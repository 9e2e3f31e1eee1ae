-- ===== src/Orchestration/RemediationWorkflow/Run.antt =====
-- The durable loop of orchestration/remediation_workflow.py. Temporal runs an activity, with its retries,
-- and gives its answer or its last failure: what it answers may depend on every activity run before.
-- Signals arrive in batches, each with the time at which the wait for it ends.
use engineering_intelligence.Base.{
  ℕ, ◌+◌, ◌*◌, String, Bool, true, false, Option, none, some, List, [], ◌∷◌, ◌++◌, if◌then◌else◌,
  ◌≡◌, refl, inl, inr, Bool-cases,
}
use engineering_intelligence.Base.Int.{ℤ, pos, negsuc, leb_ℤ, ◌+ℤ◌}
use engineering_intelligence.Base.Result.{Result, ok, raised}
use engineering_intelligence.Orchestration.RemediationWorkflow.{
  RemediationRequest, RequestError, EvidenceBundle, RemediationPlanResult,
  RemediationApprovalSignal, ApprovalVerification, PolicyVerdict, RehearsalVerdict, ActionOutcome,
  RemediationOutcome, StepDecision, stop, workflow_id, evaluate_approval_signal, decide_after_plan,
  decide_after_approval, decide_after_policy, decide_after_rehearsal,
}

-- An activity that was run, with what it was given of the workflow's own and what it answered.
pub data Event : Type 0 where
  collected : Result String EvidenceBundle → Event
  planned : EvidenceBundle → Result String RemediationPlanResult → Event
  approval_checked :
      RemediationPlanResult → RemediationApprovalSignal → Result String ApprovalVerification → Event
  policy_checked : RemediationPlanResult → Result String PolicyVerdict → Event
  rehearsed : RemediationPlanResult → Result String RehearsalVerdict → Event
  executed : RemediationPlanResult → Result String ActionOutcome → Event
  recorded :
      RemediationPlanResult → ActionOutcome → String → Result String RemediationOutcome → Event

-- The events, the latest first.
abbrev pub History : Type 0
History = List Event

-- What the workflow meets: the activities, with the flag of a verified approval and the time of the step
-- among their arguments; the clock, as a time in microseconds and as ISO text; and the signals.
pub record World : Type 0 where
  pub collect_evidence : History → RemediationRequest → String → Result String EvidenceBundle
  pub plan_remediation :
      History → RemediationRequest → EvidenceBundle → String → Result String RemediationPlanResult
  pub verify_approval :
      History
      → RemediationRequest
      → RemediationPlanResult
      → RemediationApprovalSignal
      → Result String ApprovalVerification
  pub evaluate_policy :
      History → RemediationRequest → RemediationPlanResult → Bool → Result String PolicyVerdict
  pub rehearse_in_twin :
      History → RemediationRequest → RemediationPlanResult → Bool → Result String RehearsalVerdict
  pub execute_action :
      History
      → RemediationRequest
      → RemediationPlanResult
      → Bool
      → String
      → Result String ActionOutcome
  pub record_outcome :
      History
      → RemediationRequest
      → RemediationPlanResult
      → ActionOutcome
      → String
      → String
      → Result String RemediationOutcome
  pub now : History → ℤ
  pub now_text : History → String
  pub arrivals : List (ℤ × List RemediationApprovalSignal)

-- What the workflow's code raises: the failure of an activity, which fails the workflow, or the `ValueError`
-- of a request that is not valid, after which Temporal tries the task again.
pub data Failure : Type 0 where
  activity_failed : String → Failure
  invalid_request : RequestError → Failure

-- The workflow's state: its history, and the reasons of the rejected approvals.
pub record Progress : Type 0 where
  pub history : History
  pub rejected : List String

abbrev pub Flow : Type 0 → Type 0
Flow A = Progress → Result Failure A × Progress

infixl 5 ◌>>=◌
abbrev pub ◌>>=◌ : {A B : Type 0} → Flow A → (A → Flow B) → Flow B
◌>>=◌ m f progress =
    let (answer, after) = m progress in
    elim answer [ ok a ↦ f a after | raised e ↦ (raised e, after) ]

abbrev answered : {A : Type 0} → Result String A → Result Failure A
answered (ok a) = ok a
answered (raised e) = raised (activity_failed e)

-- `workflow.execute_activity`
abbrev pub activity :
    {A : Type 0} → (History → Result String A) → (Result String A → Event) → Flow A
activity run event progress =
    let answer = run progress.history in
    (answered answer, record progress { history = event answer ∷ progress.history })

abbrev pub logged : Event → Progress → Progress
logged event progress = record progress { history = event ∷ progress.history }

by_given_answer :
    {A B : Type 0} (P : Result Failure B × Progress → Type 0) (answer : Result String A)
    (event : Result String A → Event) (next : A → Flow B) (p : Progress)
    → ((a : A) → answer ≡ ok a → P (next a (logged (event (ok a)) p)))
    → ((e : String)
        → answer ≡ raised e
        → P (raised (activity_failed e), logged (event (raised e)) p))
    → P ((activity (λ _. answer) event >>= next) p)
by_given_answer P (ok a) event next p answers fails = answers a refl
by_given_answer P (raised e) event next p answers fails = fails e refl

-- What holds after an activity and what follows it: the case of its answer and that of its failure.
pub by_answer :
    {A B : Type 0} (P : Result Failure B × Progress → Type 0) (run : History → Result String A)
    (event : Result String A → Event) (next : A → Flow B) (p : Progress)
    → ((a : A) → run p.history ≡ ok a → P (next a (logged (event (ok a)) p)))
    → ((e : String)
        → run p.history ≡ raised e
        → P (raised (activity_failed e), logged (event (raised e)) p))
    → P ((activity run event >>= next) p)
by_answer P run event next p answers fails =
    by_given_answer P (run p.history) event next p answers fails

-- The inner loop of `_await_approval`, over the signals that are pending.
unfoldable pub drain :
    Result RequestError String
    → Option String
    → List RemediationApprovalSignal
    → List String
    → Result Failure (Option RemediationApprovalSignal) × List String
drain expected plan_hash [] rejected = (ok none, rejected)
drain (raised e) plan_hash (candidate ∷ pending) rejected = (raised (invalid_request e), rejected)
drain (ok expected) plan_hash (candidate ∷ pending) rejected =
    let decision = evaluate_approval_signal expected plan_hash candidate in
    let more = drain (ok expected) plan_hash pending (rejected ++ decision.reason ∷ []) in
    if decision.accepted then (ok (some candidate), rejected) else more

abbrev pub unless_found :
    Result Failure (Option RemediationApprovalSignal) × List String
    → (List String → Result Failure (Option RemediationApprovalSignal) × List String)
    → Result Failure (Option RemediationApprovalSignal) × List String
unless_found (ok none, rejected) next = next rejected
unless_found (ok (some signal), rejected) next = (ok (some signal), rejected)
unless_found (raised e, rejected) next = (raised e, rejected)

-- The outer loop, from the time at its head, over the batches of signals in the order of their arrival. Its
-- `wait_condition` has the deadline as its timeout, so that it gives up when nothing more arrives before.
unfoldable pub wait_until :
    Result RequestError String
    → Option String
    → ℤ
    → ℤ
    → List (ℤ × List RemediationApprovalSignal)
    → List String
    → Result Failure (Option RemediationApprovalSignal) × List String
wait_until expected plan_hash deadline now [] rejected = (ok none, rejected)
wait_until expected plan_hash deadline now ((arrived, batch) ∷ later) rejected =
    let rest =
      unless_found (drain expected plan_hash batch rejected)
        (wait_until expected plan_hash deadline arrived later) in
    if leb_ℤ deadline now
    then (ok none, rejected)
    else if leb_ℤ deadline arrived
    then (ok none, rejected)
    else rest

-- `timedelta(seconds=n)`, in microseconds.
abbrev pub seconds : ℤ → ℤ
seconds (pos n) = pos (1000000 * n)
seconds (negsuc n) = negsuc (1000000 * n + 999999)

module _ (world : World) (request : RemediationRequest) where
  abbrev pub waited :
      RemediationPlanResult
      → Progress
      → Result Failure (Option RemediationApprovalSignal) × List String
  waited plan progress =
      wait_until (workflow_id request) plan.plan_hash
        (world.now progress.history +ℤ seconds request.approval_timeout_seconds)
        (world.now progress.history) world.arrivals progress.rejected

  abbrev pub ended_wait :
      Progress
      → Result Failure (Option RemediationApprovalSignal) × List String
      → Result Failure (Option RemediationApprovalSignal) × Progress
  ended_wait progress (answer, rejected) = (answer, record progress { rejected = rejected })

  -- `_await_approval`
  unfoldable pub await_approval : RemediationPlanResult → Flow (Option RemediationApprovalSignal)
  await_approval plan progress = ended_wait progress (waited plan progress)

  by_ended :
      (P : Result Failure RemediationOutcome × Progress → Type 0)
      (answer : Result Failure (Option RemediationApprovalSignal) × List String)
      (next : Option RemediationApprovalSignal → Flow RemediationOutcome) (p : Progress)
      → ((signal : Option RemediationApprovalSignal) (rejected : List String)
          → answer.0 ≡ ok signal
          → P (next signal (record p { rejected = rejected })))
      → ((e : Failure) (rejected : List String)
          → answer.0 ≡ raised e
          → P (raised e, record p { rejected = rejected }))
      → P (((λ _. ended_wait p answer) >>= next) p)
  by_ended P (ok signal, rejected) next p goes fails = goes signal rejected refl
  by_ended P (raised e, rejected) next p goes fails = fails e rejected refl

  -- What holds after the wait for an approval and what follows it.
  pub by_wait :
      (P : Result Failure RemediationOutcome × Progress → Type 0) (plan : RemediationPlanResult)
      (next : Option RemediationApprovalSignal → Flow RemediationOutcome) (p : Progress)
      → ((signal : Option RemediationApprovalSignal) (rejected : List String)
          → (waited plan p).0 ≡ ok signal
          → P (next signal (record p { rejected = rejected })))
      → ((e : Failure) (rejected : List String)
          → (waited plan p).0 ≡ raised e
          → P (raised e, record p { rejected = rejected }))
      → P ((await_approval plan >>= next) p)
  unfolding await_approval
  by_wait P plan next p goes fails = by_ended P (waited plan p) next p goes fails

  -- `_record`
  unfoldable pub record_ : RemediationPlanResult → ActionOutcome → String → Flow RemediationOutcome
  record_ plan outcome approver =
      activity
        (λ history.
          world.record_outcome history request plan outcome approver (world.now_text history))
        (recorded plan outcome approver)

  abbrev pub stopped : StepDecision → String → ℕ → ActionOutcome
  stopped decision from_status workflow_version = record {
    status = decision.terminal_status;
    reason = decision.reason;
    execution_ref = none;
    verified = false;
    rollback_ref = none;
    error = none;
    from_status = from_status;
    workflow_version = workflow_version;
  }

  -- `_finish`
  unfoldable pub finish :
      RemediationPlanResult → StepDecision → String → String → ℕ → Flow RemediationOutcome
  unfolding record_
  finish plan decision approver from_status workflow_version =
      record_ plan (stopped decision from_status workflow_version) approver

  -- `if not decision.proceed: return ...`
  abbrev pub proceed_or :
      StepDecision → Flow RemediationOutcome → Flow RemediationOutcome → Flow RemediationOutcome
  proceed_or decision ending next progress =
      if decision.proceed then next progress else ending progress

  pub by_decision :
      (P : Result Failure RemediationOutcome × Progress → Type 0) (decision : StepDecision)
      (ending next : Flow RemediationOutcome) (p : Progress)
      → (decision.proceed ≡ true → P (next p))
      → (decision.proceed ≡ false → P (ending p))
      → P (proceed_or decision ending next p)
  by_decision P decision ending next p goes stops = elim (Bool-cases decision.proceed) [
    | inl going ↦ rw going (goes going)
    | inr stopping ↦ rw stopping (stops stopping)
  ]

  unfoldable pub act : RemediationPlanResult → String → Flow RemediationOutcome
  act plan approver = do
    outcome ←
        activity
          (λ history. world.execute_action history request plan true (world.now_text history))
          (executed plan)
    record_ plan outcome approver

  -- Each stage ends the workflow, or runs the next activity and goes on to the next stage.
  unfoldable pub after_rehearsal :
      RemediationPlanResult → String → RehearsalVerdict → Flow RemediationOutcome
  after_rehearsal plan approver rehearsal =
      proceed_or (decide_after_rehearsal rehearsal)
        (finish plan (decide_after_rehearsal rehearsal) approver "waiting_approval"
          plan.workflow_version)
        (act plan approver)

  unfoldable pub rehearse : RemediationPlanResult → String → Flow RemediationOutcome
  rehearse plan approver = do
    rehearsal ←
        activity (λ history. world.rehearse_in_twin history request plan true) (rehearsed plan)
    after_rehearsal plan approver rehearsal

  unfoldable pub after_policy :
      RemediationPlanResult → String → PolicyVerdict → Flow RemediationOutcome
  after_policy plan approver verdict =
      proceed_or (decide_after_policy verdict)
        (finish plan (decide_after_policy verdict) approver "waiting_approval"
          plan.workflow_version)
        (rehearse plan approver)

  unfoldable pub ask_policy : RemediationPlanResult → String → Flow RemediationOutcome
  ask_policy plan approver = do
    verdict ←
        activity (λ history. world.evaluate_policy history request plan true) (policy_checked plan)
    after_policy plan approver verdict

  unfoldable pub after_approval :
      RemediationPlanResult → ApprovalVerification → Flow RemediationOutcome
  after_approval plan verification =
      proceed_or (decide_after_approval verification)
        (finish plan (decide_after_approval verification) "" "waiting_approval"
          plan.workflow_version)
        (ask_policy plan verification.approver)

  unfoldable pub check_approval :
      RemediationPlanResult → RemediationApprovalSignal → Flow RemediationOutcome
  check_approval plan signal = do
    verification ←
        activity (λ history. world.verify_approval history request plan signal)
          (approval_checked plan signal)
    after_approval plan verification

  abbrev pub no_approval : StepDecision
  no_approval = stop "escalate" "no valid human approval was received before the approval deadline"

  unfoldable pub after_wait :
      RemediationPlanResult → Option RemediationApprovalSignal → Flow RemediationOutcome
  after_wait plan none = finish plan no_approval "" "waiting_approval" plan.workflow_version
  after_wait plan (some signal) = check_approval plan signal

  unfoldable pub wait : RemediationPlanResult → Flow RemediationOutcome
  wait plan = do signal ← await_approval plan; after_wait plan signal

  unfoldable pub after_plan : EvidenceBundle → RemediationPlanResult → Flow RemediationOutcome
  after_plan evidence plan =
      proceed_or (decide_after_plan plan)
        (finish plan (decide_after_plan plan) "" "received" evidence.workflow_version) (wait plan)

  unfoldable pub make_plan : EvidenceBundle → Flow RemediationOutcome
  make_plan evidence = do
    plan ←
        activity
          (λ history. world.plan_remediation history request evidence (world.now_text history))
          (planned evidence)
    after_plan evidence plan

  unfoldable pub run : Flow RemediationOutcome
  run = do
    evidence ←
        activity (λ history. world.collect_evidence history request (world.now_text history))
          collected
    make_plan evidence
