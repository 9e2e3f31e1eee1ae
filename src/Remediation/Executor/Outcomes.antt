-- ===== src/Remediation/Executor/Outcomes.antt =====
-- How an execution of remediation/executor.py ends, and that it gives its lease back.
use engineering_intelligence.Base.{
  ◌≡◌, ◌≢◌, ◌↔◌, ◌⊎◌, inl, inr, String, true, none, some, List, [], ◌∷◌, arith, eq_iff,
  Option-cases,
}
use engineering_intelligence.Base.Dict.{lookup}
use engineering_intelligence.Base.Result.{Result, ok, raised, Result-cases}
use engineering_intelligence.Resilience.Scope.{Library}
use engineering_intelligence.Remediation.Catalog.{Runbook, RunbookCatalog, AutonomyLevel, get}
use engineering_intelligence.Remediation.Opa.{EvaluatedPolicyDecision}
use engineering_intelligence.Remediation.Policy.{ActionRequest, PolicyDecision}
use engineering_intelligence.Remediation.Lock.{
  LockLease, LockoutRefusal, Leases, acquire, prune_expired,
}
use engineering_intelligence.Remediation.Lock.Exclusion.{Outcome, acquire-Outcome}
use engineering_intelligence.Remediation.Lock.Runs.{release-acquire}
use engineering_intelligence.Remediation.Adapter.{
  Trace, ActionAdapter, consulted, executed, verified, truthy,
}
use engineering_intelligence.Remediation.Executor.{
  succeeded, rolled_back_, ControlLoopCall, execute_control_loop, decided, preflight, consult,
  acquire_concurrency_lease, release_lease, run_execution_and_verify, default_ttl, moment,
}
use engineering_intelligence.Remediation.Executor.Authority.{started, level_for, decision_for}

module _ (adapter : ActionAdapter) (runbook : Runbook) (request : ActionRequest)
    (decision : PolicyDecision) where
  -- The runbook was executed, and after that its verification signal was true.
  pub record IsVerified : Type 0 where
    pub ref : String
    pub performed : adapter.execute [] runbook.id request ≡ ok ref
    pub confirmed :
        adapter.verify (executed runbook.id ∷ []) runbook.verify_signal request ≡ ok true

  -- The runbook was executed, was not verified, and its rollback returned a reference.
  pub record IsRolledBack : Type 0 where
    pub ref : String
    pub performed : adapter.execute [] runbook.id request ≡ ok ref
    pub unconfirmed :
        adapter.verify (executed runbook.id ∷ []) runbook.verify_signal request ≢ ok true
    pub rollback : String
    pub named : truthy runbook.rollback_id ≡ some rollback
    pub rollback_ref : String
    pub undone :
        adapter.rollback
          (verified runbook.verify_signal ∷ executed runbook.id ∷ [])
          rollback
          request
        ≡ ok rollback_ref
    pub referenced : rollback_ref ≢ ""

  succeeded_verified :
      (run_execution_and_verify adapter runbook request decision none []).0.status ≡ succeeded
      → IsVerified
  unfolding run_execution_and_verify
  succeeded_verified e = elim (Result-cases (adapter.execute [] runbook.id request)) [
    | inl (ref, performed) ↦ record { ref = ref; performed = performed; confirmed = ground arith }
    | inr (exc, failed) ↦ absurd (ground arith)
  ]

  rolled_back_undone :
      (run_execution_and_verify adapter runbook request decision none []).0.status ≡ rolled_back_
      → IsRolledBack
  unfolding run_execution_and_verify
  rolled_back_undone e = elim (Result-cases (adapter.execute [] runbook.id request)) [
    | inl (ref, performed) ↦ elim (Option-cases (truthy runbook.rollback_id)) [
      | inl unnamed ↦ absurd (ground arith)
      | inr (rollback, named) ↦
          elim (Result-cases (
            adapter.rollback (verified runbook.verify_signal ∷ executed runbook.id ∷ []) rollback
              request)) [
                | inl (rollback_ref, undone) ↦ record {
                  ref = ref;
                  performed = performed;
                  unconfirmed = λ confirmed. ground arith;
                  rollback = rollback;
                  named = named;
                  rollback_ref = rollback_ref;
                  undone = undone;
                  referenced = λ blank. ground (arith, eq_iff rollback_ref "");
                }
                | inr (exc, failed) ↦ absurd (ground arith)
              ]
    ]
    | inr (exc, failed) ↦ absurd (ground arith)
  ]

  -- Without a canary, the action ends as succeeded exactly when the execution returned and its
  -- verification answered true, and as rolled back exactly when it was not verified and the rollback
  -- that the runbook names returned a reference that is not empty.
  pub action_outcomes :
      ((run_execution_and_verify adapter runbook request decision none []).0.status ≡ succeeded
        ↔ IsVerified)
      × ((run_execution_and_verify adapter runbook request decision none []).0.status ≡ rolled_back_
          ↔ IsRolledBack)
  unfolding run_execution_and_verify
  action_outcomes = (
    (succeeded_verified, λ h. ground arith),
    (
      rolled_back_undone,
      λ h. ground (arith, h.unconfirmed, eq_iff h.rollback_ref "", h.referenced),
    ),
  )

refused_keeps :
    (target : List String) (active : Leases) (outcome : Result LockoutRefusal LockLease × Leases)
    {refusal : LockoutRefusal}
    → Outcome target active outcome
    → outcome.0 ≡ raised refusal
    → outcome.1 ≡ active
refused_keeps target active (ok lease, after) o e = cc
refused_keeps target active (raised refusal, after) o e = o.1

module _ (lib : Library) (adapter : ActionAdapter) (call : ControlLoopCall) (leases : Leases)
    (unused : lookup call.lease_id (prune_expired (moment call) leases) ≡ none) where
  abbrev attempt : Result LockoutRefusal LockLease × Leases
  attempt =
      acquire call.lease_id call.policy.service call.impacted_services default_ttl (moment call)
        leases

  decided_returns_lease :
      (runbook : Runbook) (level : AutonomyLevel) (evaluated : EvaluatedPolicyDecision)
      (trace : Trace)
      → let after =
          (decided lib adapter call runbook level evaluated
            (record { trace = trace; leases = some leases })).1.leases in
        (after ≡ some leases) ⊎ (after ≡ some (prune_expired (moment call) leases))
  unfolding decided acquire_concurrency_lease release_lease preflight
  decided_returns_lease runbook level evaluated trace = elim (Result-cases attempt.0) [
    | inl (lease, granted_) ↦ ground (
      arith,
      release-acquire call.lease_id call.policy.service call.impacted_services default_ttl
          (moment call) leases unused granted_,
    )
    | inr (refusal, refused_) ↦ ground (
      arith,
      refused_keeps (call.policy.service ∷ call.impacted_services)
          (prune_expired (moment call) leases) attempt
          (acquire-Outcome call.lease_id call.policy.service call.impacted_services default_ttl
            (moment call) leases)
          refused_,
    )
  ]

  -- However the control loop ends, the lease that it took is given back: under an identifier not in
  -- use, the lock manager is left as it was, or without the leases that had expired.
  pub control_loop_returns_lease :
      (catalog : RunbookCatalog)
      → let after =
          (execute_control_loop lib adapter catalog call (started (some leases))).1.leases in
        (after ≡ some leases) ⊎ (after ≡ some (prune_expired (moment call) leases))
  unfolding execute_control_loop consult
  control_loop_returns_lease catalog = elim (Result-cases (get catalog call.request.runbook_id)) [
    | inl (runbook, known) ↦ ground (
      arith,
      decided_returns_lease runbook (level_for call) (decision_for lib call runbook)
          (consulted ∷ []),
    )
    | inr (unknown, missing) ↦ ground arith
  ]
