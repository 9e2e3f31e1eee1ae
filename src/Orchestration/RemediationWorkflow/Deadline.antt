-- ===== src/Orchestration/RemediationWorkflow/Deadline.antt =====
-- The wait of orchestration/remediation_workflow.py and its deadline, against a search of the signals.
use engineering_intelligence.Base.{
  ◌≡◌, refl, inl, inr, String, Bool, true, false, not, ◌&&◌, Option, none, some, List, [], ◌∷◌,
  ◌++◌, arith, Bool-cases, str_eq, if◌then◌else◌,
}
use engineering_intelligence.Base.Int.{ℤ, leb_ℤ}
use engineering_intelligence.Base.Text.{is_blank}
use engineering_intelligence.Base.Result.{Result, ok, raised}
use engineering_intelligence.State.Lifecycle.{is_plan_hash}
use engineering_intelligence.Orchestration.RemediationWorkflow.{
  RemediationApprovalSignal, evaluate_approval_signal,
}
use engineering_intelligence.Orchestration.RemediationWorkflow.Run.{
  Failure, drain, wait_until, unless_found,
}

-- The signals that arrived, in their order.
abbrev pub signals : List (ℤ × List RemediationApprovalSignal) → List RemediationApprovalSignal
signals [] = []
signals ((t, batch) ∷ later) = batch ++ signals later

-- Every batch arrives before the deadline.
abbrev pub AreBefore : ℤ → List (ℤ × List RemediationApprovalSignal) → Type 0
AreBefore deadline [] = Unit
AreBefore deadline ((t, batch) ∷ later) = (leb_ℤ deadline t ≡ false) × AreBefore deadline later

-- What comes next, if anything, arrives at the deadline or later.
abbrev pub BeginsLate : ℤ → List (ℤ × List RemediationApprovalSignal) → Type 0
BeginsLate deadline [] = Unit
BeginsLate deadline ((t, batch) ∷ later) = leb_ℤ deadline t ≡ true

module _ (id : String) where
  -- The signal names the workflow, the plan by a well-formed hash, and someone who signed.
  abbrev pub is_bound : Option String → RemediationApprovalSignal → Bool
  is_bound none signal = false
  is_bound (some hash) signal =
      is_plan_hash hash
      && str_eq signal.workflow_id_ id
      && str_eq signal.plan_hash hash
      && not (is_blank signal.approver)
      && not (is_blank signal.signature)

  abbrev pub first_bound :
      Option String → List RemediationApprovalSignal → Option RemediationApprovalSignal
  first_bound hash [] = none
  first_bound hash (signal ∷ more) =
      let rest = first_bound hash more in if is_bound hash signal then some signal else rest

  evaluate_approval_signal-is_bound :
      (hash : Option String) (signal : RemediationApprovalSignal)
      → (evaluate_approval_signal id hash signal).accepted ≡ is_bound hash signal
  unfolding evaluate_approval_signal
  evaluate_approval_signal-is_bound none signal = refl
  evaluate_approval_signal-is_bound (some hash) signal = ground arith

  abbrev or_first :
      Option RemediationApprovalSignal
      → Option RemediationApprovalSignal
      → Option RemediationApprovalSignal
  or_first none other = other
  or_first (some signal) other = some signal

  first_bound-++ :
      (hash : Option String) (first more : List RemediationApprovalSignal)
      → first_bound hash (first ++ more) ≡ or_first (first_bound hash first) (first_bound hash more)
  first_bound-++ hash [] more = refl
  first_bound-++ hash (signal ∷ first) more = elim (Bool-cases (is_bound hash signal)) [
    | inl bound ↦ rw bound refl
    | inr other ↦ rw other (first_bound-++ hash first more)
  ]

  drain-first_bound :
      (hash : Option String) (pending : List RemediationApprovalSignal) (rejected : List String)
      → (drain (ok id) hash pending rejected).0 ≡ ok (first_bound hash pending)
  unfolding drain
  drain-first_bound hash [] rejected = refl
  drain-first_bound hash (signal ∷ pending) rejected = elim (Bool-cases (is_bound hash signal)) [
    | inl bound ↦ rw (evaluate_approval_signal-is_bound hash signal, bound) refl
    | inr other ↦
        rw (evaluate_approval_signal-is_bound hash signal, other)
          (drain-first_bound hash pending
            (rejected ++ (evaluate_approval_signal id hash signal).reason ∷ []))
  ]

  unless_found-first :
      (answer : Result Failure (Option RemediationApprovalSignal) × List String)
      (next : List String → Result Failure (Option RemediationApprovalSignal) × List String)
      (first rest : Option RemediationApprovalSignal)
      → answer.0 ≡ ok first
      → ((rejected : List String) → (next rejected).0 ≡ ok rest)
      → (unless_found answer next).0 ≡ ok (or_first first rest)
  unless_found-first (ok none, rejected) next none rest h goes = goes rejected
  unless_found-first (ok none, rejected) next (some s) rest h goes = absurd (ground arith)
  unless_found-first (ok (some s), rejected) next none rest h goes = absurd (ground arith)
  unless_found-first (ok (some s), rejected) next (some t) rest h goes = h
  unless_found-first (raised e, rejected) next first rest h goes = absurd (ground arith)

  -- The wait gives the first signal that is bound to the workflow and the plan, of those that arrive before
  -- the deadline, and none where there is none. The batches before the deadline come first; from the one that
  -- arrives at it or later, if any, nothing is given, however the signals go on.
  pub wait_gives_first_bound :
      (hash : Option String) (deadline now : ℤ)
      (early rest : List (ℤ × List RemediationApprovalSignal)) (rejected : List String)
      → leb_ℤ deadline now ≡ false
      → AreBefore deadline early
      → BeginsLate deadline rest
      → (wait_until (ok id) hash deadline now (early ++ rest) rejected).0
        ≡ ok (first_bound hash (signals early))
  unfolding wait_until
  wait_gives_first_bound hash deadline now [] [] rejected waiting before late = refl
  wait_gives_first_bound hash deadline now [] ((t, batch) ∷ rest) rejected waiting before late =
      rw (waiting, late) refl
  wait_gives_first_bound hash deadline now ((arrived, found) ∷ early) rest rejected waiting before
        late =
      rw (waiting, before.0, first_bound-++ hash found (signals early))
        (unless_found-first (drain (ok id) hash found rejected)
          (wait_until (ok id) hash deadline arrived (early ++ rest)) (first_bound hash found)
          (first_bound hash (signals early)) (drain-first_bound hash found rejected)
          (λ reasons.
            wait_gives_first_bound hash deadline arrived early rest reasons before.0 before.1 late))
