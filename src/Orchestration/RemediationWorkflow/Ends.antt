-- ===== src/Orchestration/RemediationWorkflow/Ends.antt =====
-- What a run of orchestration/remediation_workflow.py has done where it returns or raises.
use engineering_intelligence.Base.{
  ℕ, ◌+◌, ◌≤◌, ◌≡◌, refl, ◌⊎◌, inl, inr, String, true, [], ◌∷◌, arith,
}
use engineering_intelligence.Base.Result.{Result, ok, raised, Result-cases}
use engineering_intelligence.Orchestration.RemediationWorkflow.{
  RemediationRequest, RemediationPlanResult, ActionOutcome, RemediationOutcome, StepDecision,
}
use engineering_intelligence.Orchestration.RemediationWorkflow.Run.{
  Event, collected, planned, approval_checked, policy_checked, rehearsed, executed, recorded,
  History, World, Failure, Progress, logged, by_answer, record_, finish, stopped, act, run,
}
use engineering_intelligence.Orchestration.RemediationWorkflow.Stages.{
  Stops, IsPreparation, Explains, run_ends,
}
use engineering_intelligence.Orchestration.RemediationWorkflow.Authority.{fresh}

-- How often the action was run, and how often an outcome was recorded.
abbrev pub executions : History → ℕ
executions [] = 0
executions (executed plan answer ∷ history) = executions history + 1
executions (collected answer ∷ history) = executions history
executions (planned evidence answer ∷ history) = executions history
executions (approval_checked plan signal answer ∷ history) = executions history
executions (policy_checked plan answer ∷ history) = executions history
executions (rehearsed plan answer ∷ history) = executions history
executions (recorded plan outcome approver answer ∷ history) = executions history

abbrev pub records : History → ℕ
records [] = 0
records (recorded plan outcome approver answer ∷ history) = records history + 1
records (collected answer ∷ history) = records history
records (planned evidence answer ∷ history) = records history
records (approval_checked plan signal answer ∷ history) = records history
records (policy_checked plan answer ∷ history) = records history
records (rehearsed plan answer ∷ history) = records history
records (executed plan answer ∷ history) = records history

-- The outcome that is recorded last: that of the action, run just before, or that of a decision to stop.
abbrev pub IsGiven : World → RemediationRequest → ActionOutcome → History → Type 0
IsGiven world request outcome history =
    ((plan : RemediationPlanResult) × (rest : History) × (history
        ≡ executed plan (ok outcome) ∷ rest))
    ⊎ ((decision : StepDecision) × (from : String) × (version : ℕ) × Stops from decision
        × (outcome ≡ stopped world request decision from version)
        × (executions history ≡ 0))

-- A run that returns has recorded last what it returns, and nothing before; one that raises has an
-- activity that failed last, or a request that is not valid.
abbrev pub Finished :
    World → RemediationRequest → Result Failure RemediationOutcome → History → Type 0
Finished world request (ok result) history =
    (plan : RemediationPlanResult) × (outcome : ActionOutcome) × (approver : String)
    × (rest : History) × (history ≡ recorded plan outcome approver (ok result) ∷ rest)
    × (records rest ≡ 0)
    × IsGiven world request outcome rest
Finished world request (raised e) history = Explains request e history

pub record Ended (world : World) (request : RemediationRequest)
    (end : Result Failure RemediationOutcome × Progress) : Type 0 where
  pub once : executions end.1.history ≤ 1
  pub recorded_once : records end.1.history ≤ 1
  pub finished : Finished world request end.0 end.1.history

-- Nothing was run or recorded yet.
Untouched : History → Type 0
Untouched history = (executions history ≡ 0) × (records history ≡ 0)

preparation-Untouched :
    (event : Event) (history : History)
    → IsPreparation event
    → Untouched history
    → Untouched (event ∷ history)
unfolding Untouched
preparation-Untouched (collected answer) history e h = h
preparation-Untouched (planned evidence answer) history e h = h
preparation-Untouched (approval_checked plan signal answer) history e h = h
preparation-Untouched (policy_checked plan answer) history e h = h
preparation-Untouched (rehearsed plan answer) history e h = h
preparation-Untouched (executed plan answer) history e h = absurd e
preparation-Untouched (recorded plan outcome approver answer) history e h = absurd e

module _ (world : World) (request : RemediationRequest) where
  record_-Ended :
      (plan : RemediationPlanResult) (outcome : ActionOutcome) (approver : String) (p : Progress)
      → executions p.history ≤ 1
      → records p.history ≡ 0
      → IsGiven world request outcome p.history
      → Ended world request (record_ world request plan outcome approver p)
  unfolding record_
  record_-Ended plan outcome approver p once none_yet given =
      elim (Result-cases
        (world.record_outcome p.history request plan outcome approver (world.now_text p.history))) [
          | inl (result, answer) ↦ rw answer (record {
            once = once;
            recorded_once = omega arith;
            finished = (plan, outcome, approver, p.history, refl, none_yet, given);
          })
          | inr (e, answer) ↦
              rw answer (record { once = once; recorded_once = omega arith; finished = refl })
        ]

  finish-Ended :
      (plan : RemediationPlanResult) (decision : StepDecision) (approver from : String)
      (version : ℕ) (p : Progress)
      → Stops from decision
      → Untouched p.history
      → Ended world request (finish world request plan decision approver from version p)
  unfolding finish Untouched
  finish-Ended plan decision approver from version p why h =
      record_-Ended plan (stopped world request decision from version) approver p (omega arith) h.1
        (inr (decision, from, version, why, refl, h.0))

  act-Ended :
      (plan : RemediationPlanResult) (approver : String) (p : Progress)
      → Untouched p.history
      → Ended world request (act world request plan approver p)
  unfolding act Untouched
  act-Ended plan approver p h =
      by_answer (Ended world request)
        (λ past. world.execute_action past request plan true (world.now_text past)) (executed plan)
        (λ outcome. record_ world request plan outcome approver) p
        (λ outcome answer.
          record_-Ended plan outcome approver (logged (executed plan (ok outcome)) p) (omega arith)
            h.1 (inl (plan, p.history, refl)))
        (λ e answer. record { once = omega arith; recorded_once = omega arith; finished = refl })

  failed-Ended :
      (e : Failure) (p : Progress)
      → Explains request e p.history
      → Untouched p.history
      → Ended world request (raised e, p)
  unfolding Untouched
  failed-Ended e p why h = record {
    once = omega arith;
    recorded_once = omega arith;
    finished = why;
  }

  -- What a run of the workflow has done where its code returns or raises: it ran the action once at most and
  -- recorded an outcome once at most. Where it returns, the record was its last step and gave what is
  -- returned, and it was of the action, run just before, or of a decision to stop, with no action run. Where
  -- it raises, its last activity failed with that text, or its request is not valid.
  pub run-Ended : Ended world request (run world request fresh)
  run-Ended =
      run_ends world request Untouched (Ended world request) preparation-Untouched
        (λ e p why h. failed-Ended e p why h) finish-Ended act-Ended fresh
        (unfold Untouched in (refl, refl))
