-- ===== src/Remediation/Canary/Safety.antt =====
-- Safety of the progressive rollout of remediation/canary.py.
use Prim.Native.String.{count}
use text.Mathlib.TextLemmas.{length-append}
use engineering_intelligence.Base.{
  ◌≡◌, ◌≢◌, ◌↔◌, ◌⊎◌, inl, inr, String, true, some, [], ◌∷◌, arith, ap,
}
use engineering_intelligence.Base.Result.{ok, Result-cases}
use engineering_intelligence.Remediation.Catalog.{Runbook}
use engineering_intelligence.Remediation.Policy.{ActionRequest}
use engineering_intelligence.Remediation.Adapter.{
  Trace, ActionAdapter, executed, verified, rolled_back, truthy, Made,
}
use engineering_intelligence.Remediation.Canary.{
  CanaryStrategy, execute_progressive, aborted, promoted, canary_runbook_id, canary_unhealthy,
  fleet_unhealthy,
}

abbrev before_last : Trace → Trace
before_last [] = []
before_last (call ∷ earlier) = earlier

canary_runbook_id_ne : (runbook : Runbook) → runbook.id ≢ canary_runbook_id runbook
canary_runbook_id_ne runbook e = omega (arith, length-append runbook.id ".canary", ap count e)

module _ (adapter : ActionAdapter) (runbook : Runbook) (request : ActionRequest)
    (strategy : CanaryStrategy) where
  -- A rollout that ends as aborted never executes the runbook itself, only its canary.
  pub aborted_spares_fleet :
      (execute_progressive adapter runbook request strategy []).0.status ≡ aborted
      → ¬ Made (executed runbook.id) (execute_progressive adapter runbook request strategy []).1
  unfolding execute_progressive
  aborted_spares_fleet e made = ground (arith, canary_runbook_id_ne runbook)

  -- Every step of the rollout succeeded, at the point where it is made.
  pub record IsHealthy : Type 0 where
    pub canary_ref : String
    pub deployed : adapter.execute [] (canary_runbook_id runbook) request ≡ ok canary_ref
    pub canary_verified :
        adapter.verify
          (executed (canary_runbook_id runbook) ∷ [])
          strategy.canary_verify_signal
          request
        ≡ ok true
    pub fleet_ref : String
    pub promoted :
        adapter.execute
          (verified strategy.canary_verify_signal ∷ executed (canary_runbook_id runbook) ∷ [])
          runbook.id
          request
        ≡ ok fleet_ref
    pub fleet_verified :
        adapter.verify
          (executed runbook.id
            ∷ verified strategy.canary_verify_signal
            ∷ executed (canary_runbook_id runbook)
            ∷ [])
          strategy.full_verify_signal
          request
        ≡ ok true

  healthy_of_promoted :
      (execute_progressive adapter runbook request strategy []).0.status ≡ promoted → IsHealthy
  unfolding execute_progressive
  healthy_of_promoted e =
      elim (Result-cases (adapter.execute [] (canary_runbook_id runbook) request)) [
        | inl (ref, deployed) ↦
            elim (Result-cases (
              adapter.execute
                (verified strategy.canary_verify_signal ∷ executed (canary_runbook_id runbook) ∷ [])
                runbook.id request)) [
                  | inl (fleet, done) ↦ record {
                    canary_ref = ref;
                    deployed = deployed;
                    canary_verified = ground arith;
                    fleet_ref = fleet;
                    promoted = done;
                    fleet_verified = ground arith;
                  }
                  | inr (exc, not_promoted) ↦ absurd (ground arith)
                ]
        | inr (exc, not_deployed) ↦ absurd (ground arith)
      ]

  -- The rollout ends as promoted exactly when the canary was deployed and verified and after that the
  -- fleet was promoted and verified, each call returning and each signal being true. Otherwise it does
  -- not report a verified fleet.
  pub promoted-IsHealthy :
      ((execute_progressive adapter runbook request strategy []).0.status ≡ promoted ↔ IsHealthy)
      × ((execute_progressive adapter runbook request strategy []).0.fleet_verified ≡ true
          ↔ IsHealthy)
  unfolding execute_progressive
  promoted-IsHealthy = (
    (healthy_of_promoted, λ h. ground arith),
    (λ e. healthy_of_promoted (ground arith), λ h. ground arith),
  )

  -- When a health verification fails and the runbook names a rollback, the rollback is the last call,
  -- and it is made once.
  pub unhealthy_rolls_back :
      (id : String)
      → truthy runbook.rollback_id ≡ some id
      → ((execute_progressive adapter runbook request strategy []).0.error ≡ some canary_unhealthy)
        ⊎ ((execute_progressive adapter runbook request strategy []).0.error ≡ some fleet_unhealthy)
      → (earlier : Trace) × ((execute_progressive adapter runbook request strategy []).1
          ≡ rolled_back id ∷ earlier)
        × ¬ Made (rolled_back id) earlier
  unfolding execute_progressive
  unhealthy_rolls_back id names unhealthy = (
    before_last (execute_progressive adapter runbook request strategy []).1,
    ground arith,
    λ made. ground arith,
  )
