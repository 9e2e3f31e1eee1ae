-- ===== src/Orchestration/Approvals/Tests.antt =====
-- Approvals at concrete inputs, with a stand-in for the signature that shows what was signed.
use Prim.Native.String.{◌++◌}
use engineering_intelligence.Base.{◌≡◌, refl, true, false, none, some, ◌↔◌}
use engineering_intelligence.Base.Int.{pos, ◌≤ℤ◌, ◌+ℤ◌, ◌-ℤ◌}
use engineering_intelligence.Orchestration.Approvals.{
  Library, Approval, issue_approval, verify_approval, verify_approval-issue_approval,
}

abbrev lib : Library
lib = record { hmac_sha256 = λ secret payload. secret ++ payload; int_text = λ n. "100" }

abbrev approval : Approval
approval = issue_approval lib "wf-1" "alice" "sha256:plan" "secret" (some (pos 100)) (pos 5)

in_time :
    verify_approval lib approval "wf-1" "sha256:plan" "secret" (pos 900) none (pos 1000) ≡ true
unfolding verify_approval issue_approval ◌+ℤ◌ ◌-ℤ◌
in_time = refl

too_old :
    verify_approval lib approval "wf-1" "sha256:plan" "secret" (pos 900) none (pos 1001) ≡ false
unfolding verify_approval issue_approval ◌+ℤ◌ ◌-ℤ◌
too_old = refl

forged :
    verify_approval lib
      (record approval { approver = "mallory" })
      "wf-1"
      "sha256:plan"
      "secret"
      (pos 900)
      none
      (pos 200)
    ≡ false
unfolding verify_approval issue_approval ◌+ℤ◌ ◌-ℤ◌
forged = refl

verify_approval-issue_approval_example :
    (verify_approval lib
        (issue_approval lib "wf-1" "alice" "sha256:plan" "secret" none (pos 100))
        "wf-1"
        "sha256:plan"
        "secret"
        (pos 900)
        none
        (pos 1000)
      ≡ true)
    ↔ ((approval.workflow_id ≡ "wf-1")
        × (approval.plan_hash ≡ "sha256:plan")
        × (pos 1000 -ℤ pos 100 ≤ℤ pos 900)
        × (pos 100 ≤ℤ pos 1000 +ℤ pos 30))
unfolding issue_approval
verify_approval-issue_approval_example =
    verify_approval-issue_approval lib "wf-1" "alice" "sha256:plan" "secret" "wf-1" "sha256:plan"
      (pos 100) (pos 1000) (pos 900)
