-- ===== src/Remediation/Opa/Tests.antt =====
-- The evaluator at concrete inputs.
use engineering_intelligence.Base.{◌≡◌, refl, ◌↔◌, true, false, not, none, some, arith}
use engineering_intelligence.Base.Text.{reads_as_upper}
use engineering_intelligence.Remediation.Catalog.{approve_and_execute}
use engineering_intelligence.Remediation.Policy.{
  authorize, lacks_token, policy_reason, human_approval,
}
use engineering_intelligence.Remediation.Opa.{
  for_policy, evaluate, effective_level, certification_denial, is_l4,
}
use engineering_intelligence.Remediation.Opa.Grants.{
  IsAuthorized, reviewed, evaluate-IsAuthorized, authorize-evaluate,
}
use engineering_intelligence.Remediation.Samples.{restart, policy_at, request, available, library}

evaluate-IsAuthorized_example :
    ((evaluate library "now" restart
        (policy_at approve_and_execute)
        request
        true
        available
        (some (for_policy "now" (policy_at approve_and_execute)))).allowed
      ≡ true)
    ↔ IsAuthorized library restart (policy_at approve_and_execute) request true available (
        reviewed (policy_at approve_and_execute) (for_policy "now" (policy_at approve_and_execute)))
evaluate-IsAuthorized_example =
    evaluate-IsAuthorized library "now" restart (policy_at approve_and_execute) request true
      available (for_policy "now" (policy_at approve_and_execute))

authorize-evaluate_example :
    (authorize restart (policy_at approve_and_execute) request).allowed
    ≡ (evaluate library "now" restart
        (policy_at approve_and_execute)
        request
        (not (lacks_token request.approval_token))
        available
        none).allowed
authorize-evaluate_example =
    authorize-evaluate library "now" restart (policy_at approve_and_execute) request available
      (omega arith) refl refl

allows_approved :
    (evaluate library "now" restart
      (policy_at approve_and_execute)
      request
      true
      available
      none).allowed
    ≡ true
unfolding evaluate effective_level reads_as_upper certification_denial is_l4
allows_approved = refl

refuses_unapproved :
    (evaluate library "now" restart
      (policy_at approve_and_execute)
      request
      false
      available
      none).reason
    ≡ policy_reason human_approval
unfolding evaluate effective_level reads_as_upper
refuses_unapproved = refl
