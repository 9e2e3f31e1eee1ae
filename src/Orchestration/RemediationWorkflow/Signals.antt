-- ===== src/Orchestration/RemediationWorkflow/Signals.antt =====
-- The approval signals of orchestration/remediation_workflow.py: which one the wait gives.
use engineering_intelligence.Base.{
  ◌≡◌, refl, sym, ap, ◌∙◌, ◌⊎◌, inl, inr, String, true, false, Option, none, some, List, [], ◌∷◌,
  ◌++◌, arith, eq_iff, Bool-cases,
}
use engineering_intelligence.Base.Int.{ℤ, leb_ℤ, ◌+ℤ◌}
use engineering_intelligence.Base.Result.{Result, ok, raised}
use engineering_intelligence.Orchestration.RemediationWorkflow.{
  RemediationRequest, RequestError, RemediationApprovalSignal, workflow_id,
  evaluate_approval_signal,
}
use engineering_intelligence.Orchestration.RemediationWorkflow.Run.{
  History, World, Failure, drain, wait_until, unless_found, seconds,
}

abbrev pub In : RemediationApprovalSignal → List RemediationApprovalSignal → Type 0
In signal [] = ⊥
In signal (s ∷ batch) = (signal ≡ s) ⊎ In signal batch

-- The signal is in a batch that arrives before the deadline.
abbrev pub Arrives :
    RemediationApprovalSignal → ℤ → List (ℤ × List RemediationApprovalSignal) → Type 0
Arrives signal deadline [] = ⊥
Arrives signal deadline ((t, batch) ∷ later) =
    ((leb_ℤ deadline t ≡ false) × In signal batch) ⊎ Arrives signal deadline later

abbrev pub approval_deadline : World → RemediationRequest → History → ℤ
approval_deadline world request history =
    world.now history +ℤ seconds request.approval_timeout_seconds

-- A signal that is bound to the workflow and to the plan.
pub record IsBound (request : RemediationRequest) (plan_hash : Option String)
    (signal : RemediationApprovalSignal) : Type 0 where
  pub workflow : workflow_id request ≡ ok signal.workflow_id_
  pub hash : plan_hash ≡ some signal.plan_hash

evaluate_approval_signal-accepted :
    (expected : String) (plan_hash : Option String) (signal : RemediationApprovalSignal)
    → (evaluate_approval_signal expected plan_hash signal).accepted ≡ true
    → (expected ≡ signal.workflow_id_) × (plan_hash ≡ some signal.plan_hash)
unfolding evaluate_approval_signal
evaluate_approval_signal-accepted expected none signal h = absurd (ground arith)
evaluate_approval_signal-accepted expected (some hash) signal h =
    ground (arith, eq_iff signal.workflow_id_ expected, eq_iff signal.plan_hash hash)

drain-IsBound :
    (request : RemediationRequest) (expected : Result RequestError String)
    (plan_hash : Option String) (pending : List RemediationApprovalSignal) (rejected : List String)
    (signal : RemediationApprovalSignal)
    → workflow_id request ≡ expected
    → (drain expected plan_hash pending rejected).0 ≡ ok (some signal)
    → IsBound request plan_hash signal × In signal pending
unfolding drain
drain-IsBound request expected plan_hash [] rejected signal id h = cc
drain-IsBound request (raised e) plan_hash (candidate ∷ pending) rejected signal id h = cc
drain-IsBound request (ok expected) plan_hash (candidate ∷ pending) rejected signal id h =
    elim (Bool-cases (evaluate_approval_signal expected plan_hash candidate).accepted) [
      | inl accepted ↦
          let same : candidate ≡ signal = ground arith in
          let bound = evaluate_approval_signal-accepted expected plan_hash candidate accepted in
          (rw (sym same) (record { workflow = id ∙ ap ok bound.0; hash = bound.1 }), inl (sym same))
      | inr refused ↦
          let rest =
            drain-IsBound request (ok expected) plan_hash pending
              (rejected ++ (evaluate_approval_signal expected plan_hash candidate).reason ∷ [])
              signal id (ground arith) in
          (rest.0, inr rest.1)
    ]

unless_found-some :
    (first : Result Failure (Option RemediationApprovalSignal) × List String)
    (next : List String → Result Failure (Option RemediationApprovalSignal) × List String)
    (signal : RemediationApprovalSignal)
    → (unless_found first next).0 ≡ ok (some signal)
    → (first.0 ≡ ok (some signal))
      ⊎ ((rejected : List String) × ((next rejected).0 ≡ ok (some signal)))
unless_found-some (ok none, rejected) next signal h = inr (rejected, h)
unless_found-some (ok (some s), rejected) next signal h = inl h
unless_found-some (raised e, rejected) next signal h = cc

pub wait_until-IsBound :
    (request : RemediationRequest) (plan_hash : Option String) (deadline now : ℤ)
    (arrivals : List (ℤ × List RemediationApprovalSignal)) (rejected : List String)
    (signal : RemediationApprovalSignal)
    → (wait_until (workflow_id request) plan_hash deadline now arrivals rejected).0
      ≡ ok (some signal)
    → (IsBound request plan_hash signal) × Arrives signal deadline arrivals
unfolding wait_until
wait_until-IsBound request plan_hash deadline now [] rejected signal h = cc
wait_until-IsBound request plan_hash deadline now ((arrived, batch) ∷ later) rejected signal h =
    let found =
      unless_found-some (drain (workflow_id request) plan_hash batch rejected)
        (wait_until (workflow_id request) plan_hash deadline arrived later) signal (ground arith) in
    elim found [
      | inl here ↦
          let known =
            drain-IsBound request (workflow_id request) plan_hash batch rejected signal refl here in
          (known.0, inl (ground arith, known.1))
      | inr (reasons, after) ↦
          let known =
            wait_until-IsBound request plan_hash deadline arrived later reasons signal after in
          (known.0, inr known.1)
    ]
