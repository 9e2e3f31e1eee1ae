-- ===== src/Orchestration/RemediationWorkflow/Stages.antt =====
-- A rule for the runs of orchestration/remediation_workflow.py: what holds of every end, from what is kept
-- of the history on the way to it.
use engineering_intelligence.Base.{
  ℕ, ◌≡◌, refl, sym, ◌++◌, Bool-cases, ◌⊎◌, inl, inr, String, true, Option, none, some, List, [],
  ◌∷◌, arith,
}
use engineering_intelligence.Base.Int.{ℤ}
use engineering_intelligence.Base.Result.{Result, ok, raised}
use engineering_intelligence.Orchestration.RemediationWorkflow.{
  RemediationRequest, EvidenceBundle, RemediationPlanResult, RemediationApprovalSignal,
  ApprovalVerification, PolicyVerdict, RehearsalVerdict, RemediationOutcome, StepDecision,
  RequestError, workflow_id, evaluate_approval_signal, decide_after_plan, decide_after_approval,
  decide_after_policy, decide_after_rehearsal,
}
use engineering_intelligence.Orchestration.RemediationWorkflow.Run.{
  Event, collected, planned, approval_checked, policy_checked, rehearsed, executed, recorded,
  History, World, Failure, activity_failed, invalid_request, Progress, drain, unless_found,
  wait_until, logged, by_answer, by_decision, by_wait, no_approval, finish, act, after_rehearsal,
  rehearse, after_policy, ask_policy, after_approval, check_approval, after_wait, wait, after_plan,
  make_plan, run,
}

-- The status of the record, and the status with which the workflow stops without an action.
pub data Stops : String → StepDecision → Type 0 where
  unplanned :
      {from : String} {decision : StepDecision}
      → from ≡ "received"
      → decision.terminal_status ≡ "escalate"
      → Stops from decision
  unapproved :
      {from : String} {decision : StepDecision}
      → from ≡ "waiting_approval"
      → decision.terminal_status ≡ "escalate"
      → Stops from decision
  refused :
      {from : String} {decision : StepDecision}
      → from ≡ "waiting_approval"
      → decision.terminal_status ≡ "denied"
      → Stops from decision

-- An activity that comes before the action.
abbrev pub IsPreparation : Event → Type 0
IsPreparation (collected answer) = Unit
IsPreparation (planned evidence answer) = Unit
IsPreparation (approval_checked plan signal answer) = Unit
IsPreparation (policy_checked plan answer) = Unit
IsPreparation (rehearsed plan answer) = Unit
IsPreparation (executed plan answer) = ⊥
IsPreparation (recorded plan outcome approver answer) = ⊥

-- The activity failed with this text.
abbrev pub FailedWith : String → Event → Type 0
FailedWith text (collected answer) = answer ≡ raised text
FailedWith text (planned evidence answer) = answer ≡ raised text
FailedWith text (approval_checked plan signal answer) = answer ≡ raised text
FailedWith text (policy_checked plan answer) = answer ≡ raised text
FailedWith text (rehearsed plan answer) = answer ≡ raised text
FailedWith text (executed plan answer) = answer ≡ raised text
FailedWith text (recorded plan outcome approver answer) = answer ≡ raised text

-- Why a workflow fails: its last activity did, or its request is not valid.
abbrev pub Explains : RemediationRequest → Failure → History → Type 0
Explains request (activity_failed text) [] = ⊥
Explains request (activity_failed text) (event ∷ history) = FailedWith text event
Explains request (invalid_request e) history = workflow_id request ≡ raised e

explained :
    (request : RemediationRequest) (cause e : Failure) (history : History)
    → cause ≡ e
    → Explains request cause history
    → Explains request e history
explained request cause e history same h = rw (sym same) h

drain-raised :
    (request : RemediationRequest) (expected : Result RequestError String)
    (plan_hash : Option String) (pending : List RemediationApprovalSignal) (rejected : List String)
    (e : Failure) (history : History)
    → workflow_id request ≡ expected
    → (drain expected plan_hash pending rejected).0 ≡ raised e
    → Explains request e history
unfolding drain
drain-raised request expected plan_hash [] rejected e history id h = cc
drain-raised request (raised why) plan_hash (candidate ∷ pending) rejected e history id h =
    explained request (invalid_request why) e history (ground arith) id
drain-raised request (ok expected) plan_hash (candidate ∷ pending) rejected e history id h =
    elim (Bool-cases (evaluate_approval_signal expected plan_hash candidate).accepted) [
      | inl accepted ↦ absurd (ground arith)
      | inr other ↦
          drain-raised request (ok expected) plan_hash pending
            (rejected ++ (evaluate_approval_signal expected plan_hash candidate).reason ∷ []) e
            history id (ground arith)
    ]

unless_found-raised :
    (first : Result Failure (Option RemediationApprovalSignal) × List String)
    (next : List String → Result Failure (Option RemediationApprovalSignal) × List String)
    (e : Failure)
    → (unless_found first next).0 ≡ raised e
    → (first.0 ≡ raised e) ⊎ ((rejected : List String) × ((next rejected).0 ≡ raised e))
unless_found-raised (ok none, rejected) next e h = inr (rejected, h)
unless_found-raised (ok (some s), rejected) next e h = cc
unless_found-raised (raised f, rejected) next e h = inl h

wait_until-raised :
    (request : RemediationRequest) (plan_hash : Option String) (deadline now : ℤ)
    (arrivals : List (ℤ × List RemediationApprovalSignal)) (rejected : List String) (e : Failure)
    (history : History)
    → (wait_until (workflow_id request) plan_hash deadline now arrivals rejected).0 ≡ raised e
    → Explains request e history
unfolding wait_until
wait_until-raised request plan_hash deadline now [] rejected e history h = cc
wait_until-raised request plan_hash deadline now ((arrived, batch) ∷ later) rejected e history h =
    elim (unless_found-raised (drain (workflow_id request) plan_hash batch rejected)
      (wait_until (workflow_id request) plan_hash deadline arrived later) e (ground arith)) [
        | inl here ↦
            drain-raised request (workflow_id request) plan_hash batch rejected e history refl here
        | inr (reasons, after) ↦
            wait_until-raised request plan_hash deadline arrived later reasons e history after
      ]

module _ (world : World) (request : RemediationRequest) (Kept : History → Type 0)
    (P : Result Failure RemediationOutcome × Progress → Type 0)
    (keeps : (event : Event) (history : History)
      → IsPreparation event
      → Kept history
      → Kept (event ∷ history))
    (fails : (e : Failure) (p : Progress)
      → Explains request e p.history
      → Kept p.history
      → P (raised e, p))
    (stops : (plan : RemediationPlanResult) (decision : StepDecision) (approver from : String)
        (version : ℕ) (p : Progress)
      → Stops from decision
      → Kept p.history
      → P (finish world request plan decision approver from version p))
    (acts : (plan : RemediationPlanResult) (approver : String) (p : Progress)
      → Kept p.history
      → P (act world request plan approver p)) where
  after_rehearsal_ends :
      (plan : RemediationPlanResult) (approver : String) (rehearsal : RehearsalVerdict)
      (p : Progress)
      → Kept p.history
      → P (after_rehearsal world request plan approver rehearsal p)
  unfolding after_rehearsal decide_after_rehearsal
  after_rehearsal_ends plan approver rehearsal p h =
      by_decision world request P (decide_after_rehearsal rehearsal)
        (finish world request plan (decide_after_rehearsal rehearsal) approver "waiting_approval"
          plan.workflow_version)
        (act world request plan approver) p (λ goes. acts plan approver p h)
        (λ ends.
          stops plan (decide_after_rehearsal rehearsal) approver "waiting_approval"
            plan.workflow_version p (unapproved refl (ground arith)) h)

  rehearse_ends :
      (plan : RemediationPlanResult) (approver : String) (p : Progress)
      → Kept p.history
      → P (rehearse world request plan approver p)
  unfolding rehearse
  rehearse_ends plan approver p h =
      by_answer P (λ past. world.rehearse_in_twin past request plan true) (rehearsed plan)
        (after_rehearsal world request plan approver) p
        (λ rehearsal answer.
          after_rehearsal_ends plan approver rehearsal (logged (rehearsed plan (ok rehearsal)) p)
            (keeps (rehearsed plan (ok rehearsal)) p.history tt h))
        (λ e answer.
          fails (activity_failed e) (logged (rehearsed plan (raised e)) p) refl
            (keeps (rehearsed plan (raised e)) p.history tt h))

  after_policy_ends :
      (plan : RemediationPlanResult) (approver : String) (verdict : PolicyVerdict) (p : Progress)
      → Kept p.history
      → P (after_policy world request plan approver verdict p)
  unfolding after_policy decide_after_policy
  after_policy_ends plan approver verdict p h =
      by_decision world request P (decide_after_policy verdict)
        (finish world request plan (decide_after_policy verdict) approver "waiting_approval"
          plan.workflow_version)
        (rehearse world request plan approver) p (λ goes. rehearse_ends plan approver p h)
        (λ ends.
          stops plan (decide_after_policy verdict) approver "waiting_approval" plan.workflow_version
            p (refused refl (ground arith)) h)

  ask_policy_ends :
      (plan : RemediationPlanResult) (approver : String) (p : Progress)
      → Kept p.history
      → P (ask_policy world request plan approver p)
  unfolding ask_policy
  ask_policy_ends plan approver p h =
      by_answer P (λ past. world.evaluate_policy past request plan true) (policy_checked plan)
        (after_policy world request plan approver) p
        (λ verdict answer.
          after_policy_ends plan approver verdict (logged (policy_checked plan (ok verdict)) p)
            (keeps (policy_checked plan (ok verdict)) p.history tt h))
        (λ e answer.
          fails (activity_failed e) (logged (policy_checked plan (raised e)) p) refl
            (keeps (policy_checked plan (raised e)) p.history tt h))

  after_approval_ends :
      (plan : RemediationPlanResult) (verification : ApprovalVerification) (p : Progress)
      → Kept p.history
      → P (after_approval world request plan verification p)
  unfolding after_approval decide_after_approval
  after_approval_ends plan verification p h =
      by_decision world request P (decide_after_approval verification)
        (finish world request plan (decide_after_approval verification) "" "waiting_approval"
          plan.workflow_version)
        (ask_policy world request plan verification.approver) p
        (λ goes. ask_policy_ends plan verification.approver p h)
        (λ ends.
          stops plan (decide_after_approval verification) "" "waiting_approval"
            plan.workflow_version p (unapproved refl (ground arith)) h)

  check_approval_ends :
      (plan : RemediationPlanResult) (signal : RemediationApprovalSignal) (p : Progress)
      → Kept p.history
      → P (check_approval world request plan signal p)
  unfolding check_approval
  check_approval_ends plan signal p h =
      by_answer P (λ past. world.verify_approval past request plan signal)
        (approval_checked plan signal) (after_approval world request plan) p
        (λ verification answer.
          after_approval_ends plan verification
            (logged (approval_checked plan signal (ok verification)) p)
            (keeps (approval_checked plan signal (ok verification)) p.history tt h))
        (λ e answer.
          fails (activity_failed e) (logged (approval_checked plan signal (raised e)) p) refl
            (keeps (approval_checked plan signal (raised e)) p.history tt h))

  after_wait_ends :
      (plan : RemediationPlanResult) (signal : Option RemediationApprovalSignal) (p : Progress)
      → Kept p.history
      → P (after_wait world request plan signal p)
  unfolding after_wait
  after_wait_ends plan none p h =
      stops plan (no_approval world request) "" "waiting_approval" plan.workflow_version p
        (unapproved refl refl) h
  after_wait_ends plan (some signal) p h = check_approval_ends plan signal p h

  after_plan_ends :
      (evidence : EvidenceBundle) (plan : RemediationPlanResult) (p : Progress)
      → Kept p.history
      → P (after_plan world request evidence plan p)
  unfolding after_plan decide_after_plan wait
  after_plan_ends evidence plan p h =
      by_decision world request P (decide_after_plan plan)
        (finish world request plan (decide_after_plan plan) "" "received" evidence.workflow_version)
        (wait world request plan) p
        (λ goes.
          by_wait world request P plan (after_wait world request plan) p
            (λ signal rejected answer.
              after_wait_ends plan signal (record p { rejected = rejected }) h)
            (λ e rejected answer.
              fails e (record p { rejected = rejected })
                (wait_until-raised request plan.plan_hash _ _ world.arrivals p.rejected e p.history
                  answer)
                h))
        (λ ends.
          stops plan (decide_after_plan plan) "" "received" evidence.workflow_version p
            (unplanned refl (ground arith)) h)

  make_plan_ends :
      (evidence : EvidenceBundle) (p : Progress)
      → Kept p.history
      → P (make_plan world request evidence p)
  unfolding make_plan
  make_plan_ends evidence p h =
      by_answer P (λ past. world.plan_remediation past request evidence (world.now_text past))
        (planned evidence) (after_plan world request evidence) p
        (λ plan answer.
          after_plan_ends evidence plan (logged (planned evidence (ok plan)) p)
            (keeps (planned evidence (ok plan)) p.history tt h))
        (λ e answer.
          fails (activity_failed e) (logged (planned evidence (raised e)) p) refl
            (keeps (planned evidence (raised e)) p.history tt h))

  pub run_ends : (p : Progress) → Kept p.history → P (run world request p)
  unfolding run
  run_ends p h =
      by_answer P (λ past. world.collect_evidence past request (world.now_text past)) collected
        (make_plan world request) p
        (λ evidence answer.
          make_plan_ends evidence (logged (collected (ok evidence)) p)
            (keeps (collected (ok evidence)) p.history tt h))
        (λ e answer.
          fails (activity_failed e) (logged (collected (raised e)) p) refl
            (keeps (collected (raised e)) p.history tt h))
