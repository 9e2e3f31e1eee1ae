-- ===== src/Remediation/Canary/Tests.antt =====
-- The progressive rollout at concrete inputs.
use engineering_intelligence.Base.{◌≡◌, refl, ◌↔◌, true, [], ◌∷◌, inl}
use engineering_intelligence.Remediation.Adapter.{Trace, executed, rolled_back, Made}
use engineering_intelligence.Remediation.Canary.{execute_progressive, default_strategy, promoted}
use engineering_intelligence.Remediation.Canary.Safety.{
  IsHealthy, aborted_spares_fleet, promoted-IsHealthy, unhealthy_rolls_back,
}
use engineering_intelligence.Remediation.Samples.{restart, request, healthy, unhealthy}

aborted_spares_fleet_example :
    ¬ Made
      (executed "aks.restart.workload")
      (execute_progressive unhealthy restart request default_strategy []).1
aborted_spares_fleet_example =
    aborted_spares_fleet unhealthy restart request default_strategy
      (unfold execute_progressive in refl)

promoted-IsHealthy_example :
    ((execute_progressive healthy restart request default_strategy []).0.status ≡ promoted
      ↔ IsHealthy healthy restart request default_strategy)
    × ((execute_progressive healthy restart request default_strategy []).0.fleet_verified ≡ true
        ↔ IsHealthy healthy restart request default_strategy)
promoted-IsHealthy_example = promoted-IsHealthy healthy restart request default_strategy

promotes : (execute_progressive healthy restart request default_strategy []).0.status ≡ promoted
unfolding execute_progressive
promotes = refl

unhealthy_rolls_back_example :
    (earlier : Trace) × ((execute_progressive unhealthy restart request default_strategy []).1
      ≡ rolled_back "aks.rollout.redo" ∷ earlier)
    × ¬ Made (rolled_back "aks.rollout.redo") earlier
unhealthy_rolls_back_example =
    unhealthy_rolls_back unhealthy restart request default_strategy "aks.rollout.redo" refl
      (unfold execute_progressive in inl refl)
