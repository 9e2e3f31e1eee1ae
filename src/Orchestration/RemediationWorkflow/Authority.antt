-- ===== src/Orchestration/RemediationWorkflow/Authority.antt =====
-- What the workflow of orchestration/remediation_workflow.py has done before it runs the action.
use engineering_intelligence.Base.{
  ℕ, ◌≡◌, refl, sym, ap, ◌∙◌, String, true, Option, none, some, List, [], ◌∷◌, arith,
}
use engineering_intelligence.Base.Result.{Result, ok}
use engineering_intelligence.Orchestration.RemediationWorkflow.{
  RemediationRequest, EvidenceBundle, RemediationPlanResult, RemediationApprovalSignal,
  ApprovalVerification, PolicyVerdict, RehearsalVerdict, ActionOutcome, RemediationOutcome,
  StepDecision, decide_after_plan, decide_after_approval, decide_after_policy,
  decide_after_rehearsal,
}
use engineering_intelligence.Orchestration.RemediationWorkflow.Run.{
  collected, planned, approval_checked, policy_checked, rehearsed, executed, recorded, History,
  World, Failure, Progress, by_answer, by_decision, by_wait, waited, no_approval, logged, record_,
  finish, act, after_rehearsal, rehearse, after_policy, ask_policy, after_approval, check_approval,
  after_wait, wait, after_plan, make_plan, run,
}
use engineering_intelligence.Orchestration.RemediationWorkflow.Signals.{
  Arrives, approval_deadline, IsBound, wait_until-IsBound,
}

-- What the history is when the action is run, the latest first, and what was answered then.
pub record Authorized (world : World) (request : RemediationRequest) (plan : RemediationPlanResult)
    (history : History) : Type 0 where
  pub evidence : EvidenceBundle
  pub signal : RemediationApprovalSignal
  pub verification : ApprovalVerification
  pub verdict : PolicyVerdict
  pub rehearsal : RehearsalVerdict
  pub steps :
      history
      ≡ rehearsed plan (ok rehearsal)
        ∷ policy_checked plan (ok verdict)
        ∷ approval_checked plan signal (ok verification)
        ∷ planned evidence (ok plan)
        ∷ collected (ok evidence)
        ∷ []
  pub is_planned : plan.planned ≡ true
  pub bound : IsBound request plan.plan_hash signal
  pub arrived :
      Arrives signal
        (approval_deadline world request
          (planned evidence (ok plan) ∷ collected (ok evidence) ∷ []))
        world.arrivals
  pub verified : verification.verified ≡ true
  pub allowed : verdict.allowed ≡ true
  pub safe : rehearsal.safe_to_promote ≡ true

-- Wherever the action was run, it was authorized by the events before.
abbrev pub IsOrdered : World → RemediationRequest → History → Type 0
IsOrdered world request [] = Unit
IsOrdered world request (executed plan answer ∷ history) =
    Authorized world request plan history × IsOrdered world request history
IsOrdered world request (collected answer ∷ history) = IsOrdered world request history
IsOrdered world request (planned evidence answer ∷ history) = IsOrdered world request history
IsOrdered world request (approval_checked plan signal answer ∷ history) =
    IsOrdered world request history
IsOrdered world request (policy_checked plan answer ∷ history) = IsOrdered world request history
IsOrdered world request (rehearsed plan answer ∷ history) = IsOrdered world request history
IsOrdered world request (recorded plan outcome approver answer ∷ history) =
    IsOrdered world request history

module _ (world : World) (request : RemediationRequest) where
  -- A stage that ends with an ordered history.
  IsSafe : Result Failure RemediationOutcome × Progress → Type 0
  IsSafe ended = IsOrdered world request ended.1.history

  -- What the stages keep of the events before them.
  Planned : RemediationPlanResult → History → Type 0
  Planned plan history =
      (evidence : EvidenceBundle) × (history
        ≡ planned evidence (ok plan) ∷ collected (ok evidence) ∷ [])
      × IsOrdered world request history

  record Approved (plan : RemediationPlanResult) (signal : RemediationApprovalSignal)
      (verification : ApprovalVerification) (history : History) : Type 0 where
    before : History
    planned_ : Planned plan before
    steps : history ≡ approval_checked plan signal (ok verification) ∷ before
    is_planned : plan.planned ≡ true
    bound : IsBound request plan.plan_hash signal
    arrived : Arrives signal (approval_deadline world request before) world.arrivals

  start-IsOrdered :
      {evidence : EvidenceBundle} {history : History}
      → history ≡ collected (ok evidence) ∷ []
      → IsOrdered world request history
  start-IsOrdered at = rw at tt

  record_-IsSafe :
      (plan : RemediationPlanResult) (outcome : ActionOutcome) (approver : String) (p : Progress)
      → IsOrdered world request p.history
      → IsSafe (record_ world request plan outcome approver p)
  unfolding IsSafe record_
  record_-IsSafe plan outcome approver p h = h

  finish-IsSafe :
      (plan : RemediationPlanResult) (decision : StepDecision) (approver from : String)
      (version : ℕ) (p : Progress)
      → IsOrdered world request p.history
      → IsSafe (finish world request plan decision approver from version p)
  unfolding IsSafe finish
  finish-IsSafe plan decision approver from version p h = h

  act-IsSafe :
      (plan : RemediationPlanResult) (approver : String) (p : Progress)
      → Authorized world request plan p.history
      → IsOrdered world request p.history
      → IsSafe (act world request plan approver p)
  unfolding act
  act-IsSafe plan approver p authorized h =
      by_answer IsSafe
        (λ history. world.execute_action history request plan true (world.now_text history))
        (executed plan) (λ outcome. record_ world request plan outcome approver) p
        (λ outcome answer.
          record_-IsSafe plan outcome approver (logged (executed plan (ok outcome)) p)
            (authorized, h))
        (λ e answer. unfold IsSafe in (authorized, h))

  after_rehearsal-IsSafe :
      (plan : RemediationPlanResult) (approver : String) (rehearsal : RehearsalVerdict)
      (p : Progress)
      → (rehearsal.safe_to_promote ≡ true → Authorized world request plan p.history)
      → IsOrdered world request p.history
      → IsSafe (after_rehearsal world request plan approver rehearsal p)
  unfolding after_rehearsal decide_after_rehearsal
  after_rehearsal-IsSafe plan approver rehearsal p authorized h =
      by_decision world request IsSafe (decide_after_rehearsal rehearsal)
        (finish world request plan (decide_after_rehearsal rehearsal) approver "waiting_approval"
          plan.workflow_version)
        (act world request plan approver) p
        (λ goes. act-IsSafe plan approver p (authorized (ground arith)) h)
        (λ stops.
          finish-IsSafe plan (decide_after_rehearsal rehearsal) approver "waiting_approval"
            plan.workflow_version p h)

  rehearse-IsSafe :
      (plan : RemediationPlanResult) (signal : RemediationApprovalSignal)
      (verification : ApprovalVerification) (verdict : PolicyVerdict) (p : Progress)
      (history : History)
      → p.history ≡ policy_checked plan (ok verdict) ∷ history
      → Approved plan signal verification history
      → verification.verified ≡ true
      → verdict.allowed ≡ true
      → IsOrdered world request p.history
      → IsSafe (rehearse world request plan verification.approver p)
  unfolding rehearse Planned
  rehearse-IsSafe plan signal verification verdict p history at approved verified allowed h =
      by_answer IsSafe (λ past. world.rehearse_in_twin past request plan true) (rehearsed plan)
        (after_rehearsal world request plan verification.approver) p
        (λ rehearsal answer.
          after_rehearsal-IsSafe plan verification.approver rehearsal
            (logged (rehearsed plan (ok rehearsal)) p)
            (λ safe. record {
              evidence = approved.planned_.0;
              signal = signal;
              verification = verification;
              verdict = verdict;
              rehearsal = rehearsal;
              steps =
                  ap (λ past. rehearsed plan (ok rehearsal) ∷ past)
                    (at
                      ∙ ap (λ past. policy_checked plan (ok verdict) ∷ past)
                          (approved.steps
                            ∙ ap (λ past. approval_checked plan signal (ok verification) ∷ past)
                                approved.planned_.1));
              is_planned = approved.is_planned;
              bound = approved.bound;
              arrived = rw (sym approved.planned_.1) approved.arrived;
              verified = verified;
              allowed = allowed;
              safe = safe;
            })
            h)
        (λ e answer. unfold IsSafe in h)

  after_policy-IsSafe :
      (plan : RemediationPlanResult) (signal : RemediationApprovalSignal)
      (verification : ApprovalVerification) (verdict : PolicyVerdict) (p : Progress)
      (history : History)
      → p.history ≡ policy_checked plan (ok verdict) ∷ history
      → Approved plan signal verification history
      → verification.verified ≡ true
      → IsOrdered world request p.history
      → IsSafe (after_policy world request plan verification.approver verdict p)
  unfolding after_policy decide_after_policy
  after_policy-IsSafe plan signal verification verdict p history at approved verified h =
      by_decision world request IsSafe (decide_after_policy verdict)
        (finish world request plan (decide_after_policy verdict) verification.approver
          "waiting_approval" plan.workflow_version)
        (rehearse world request plan verification.approver) p
        (λ goes.
          rehearse-IsSafe plan signal verification verdict p history at approved verified
            (ground arith) h)
        (λ stops.
          finish-IsSafe plan (decide_after_policy verdict) verification.approver "waiting_approval"
            plan.workflow_version p h)

  ask_policy-IsSafe :
      (plan : RemediationPlanResult) (signal : RemediationApprovalSignal)
      (verification : ApprovalVerification) (p : Progress)
      → Approved plan signal verification p.history
      → verification.verified ≡ true
      → IsOrdered world request p.history
      → IsSafe (ask_policy world request plan verification.approver p)
  unfolding ask_policy
  ask_policy-IsSafe plan signal verification p approved verified h =
      by_answer IsSafe (λ past. world.evaluate_policy past request plan true) (policy_checked plan)
        (after_policy world request plan verification.approver) p
        (λ verdict answer.
          after_policy-IsSafe plan signal verification verdict
            (logged (policy_checked plan (ok verdict)) p) p.history refl approved verified h)
        (λ e answer. unfold IsSafe in h)

  after_approval-IsSafe :
      (plan : RemediationPlanResult) (signal : RemediationApprovalSignal)
      (verification : ApprovalVerification) (p : Progress)
      → Approved plan signal verification p.history
      → IsOrdered world request p.history
      → IsSafe (after_approval world request plan verification p)
  unfolding after_approval decide_after_approval
  after_approval-IsSafe plan signal verification p approved h =
      by_decision world request IsSafe (decide_after_approval verification)
        (finish world request plan (decide_after_approval verification) "" "waiting_approval"
          plan.workflow_version)
        (ask_policy world request plan verification.approver) p
        (λ goes. ask_policy-IsSafe plan signal verification p approved (ground arith) h)
        (λ stops.
          finish-IsSafe plan (decide_after_approval verification) "" "waiting_approval"
            plan.workflow_version p h)

  check_approval-IsSafe :
      (plan : RemediationPlanResult) (signal : RemediationApprovalSignal) (p : Progress)
      → Planned plan p.history
      → plan.planned ≡ true
      → IsBound request plan.plan_hash signal
      → Arrives signal (approval_deadline world request p.history) world.arrivals
      → IsSafe (check_approval world request plan signal p)
  unfolding check_approval Planned
  check_approval-IsSafe plan signal p made is_planned bound arrived =
      by_answer IsSafe (λ past. world.verify_approval past request plan signal)
        (approval_checked plan signal) (after_approval world request plan) p
        (λ verification answer.
          after_approval-IsSafe plan signal verification
            (logged (approval_checked plan signal (ok verification)) p)
            (record {
              before = p.history;
              planned_ = made;
              steps = refl;
              is_planned = is_planned;
              bound = bound;
              arrived = arrived;
            })
            made.2)
        (λ e answer. unfold IsSafe in made.2)

  after_wait-IsSafe :
      (plan : RemediationPlanResult) (signal : Option RemediationApprovalSignal) (p : Progress)
      (rejected : List String)
      → (waited world request plan p).0 ≡ ok signal
      → Planned plan p.history
      → plan.planned ≡ true
      → IsSafe (after_wait world request plan signal (record p { rejected = rejected }))
  unfolding after_wait Planned
  after_wait-IsSafe plan none p rejected answer made is_planned =
      finish-IsSafe plan (no_approval world request) "" "waiting_approval" plan.workflow_version
        (record p { rejected = rejected }) made.2
  after_wait-IsSafe plan (some signal) p rejected answer made is_planned =
      let known =
        wait_until-IsBound request plan.plan_hash _ _ world.arrivals p.rejected signal answer in
      check_approval-IsSafe plan signal (record p { rejected = rejected }) made is_planned known.0
        known.1

  -- The wait changes nothing of the history.
  wait-IsSafe :
      (plan : RemediationPlanResult) (p : Progress)
      → Planned plan p.history
      → plan.planned ≡ true
      → IsSafe (wait world request plan p)
  unfolding wait Planned
  wait-IsSafe plan p made is_planned =
      by_wait world request IsSafe plan (after_wait world request plan) p
        (λ signal rejected answer. after_wait-IsSafe plan signal p rejected answer made is_planned)
        (λ e rejected answer. unfold IsSafe in made.2)

  after_plan-IsSafe :
      (evidence : EvidenceBundle) (plan : RemediationPlanResult) (p : Progress)
      → Planned plan p.history
      → IsSafe (after_plan world request evidence plan p)
  unfolding after_plan decide_after_plan Planned
  after_plan-IsSafe evidence plan p made =
      by_decision world request IsSafe (decide_after_plan plan)
        (finish world request plan (decide_after_plan plan) "" "received" evidence.workflow_version)
        (wait world request plan) p (λ goes. wait-IsSafe plan p made (ground arith))
        (λ stops.
          finish-IsSafe plan (decide_after_plan plan) "" "received" evidence.workflow_version p
            made.2)

  make_plan-IsSafe :
      (evidence : EvidenceBundle) (p : Progress)
      → p.history ≡ collected (ok evidence) ∷ []
      → IsSafe (make_plan world request evidence p)
  unfolding make_plan Planned
  make_plan-IsSafe evidence p at =
      by_answer IsSafe (λ past. world.plan_remediation past request evidence (world.now_text past))
        (planned evidence) (after_plan world request evidence) p
        (λ plan answer.
          after_plan-IsSafe evidence plan (logged (planned evidence (ok plan)) p)
            (evidence, ap (λ past. planned evidence (ok plan) ∷ past) at, start-IsOrdered at))
        (λ e answer. unfold IsSafe in start-IsOrdered at)

-- The state of a new workflow.
abbrev pub fresh : Progress
fresh = record { history = []; rejected = [] }

-- Wherever a run of the workflow ran the action, it had, in this order and last: collected evidence,
-- made the plan, checked an approval that was signalled in time for this workflow and this plan hash and was
-- verified, been allowed by the policy, and rehearsed the plan, safely.
pub action-Authorized :
    (world : World) (request : RemediationRequest)
    → IsOrdered world request (run world request fresh).1.history
unfolding run IsSafe
action-Authorized world request =
    by_answer (IsSafe world request)
      (λ past. world.collect_evidence past request (world.now_text past)) collected
      (make_plan world request) fresh
      (λ evidence answer.
        make_plan-IsSafe world request evidence (logged (collected (ok evidence)) fresh) refl)
      (λ e answer. tt)
