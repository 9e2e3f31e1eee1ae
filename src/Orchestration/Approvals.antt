-- ===== src/Orchestration/Approvals.antt =====
-- orchestration/approvals.py: approvals signed with a shared secret. Times are Unix seconds, as integers.
-- hmac and the decimal text of an integer are Python's: `Library` has them.
mod Tests
use Prim.Native.String.{◌++◌}
use engineering_intelligence.Base.{
  ℕ, zero, suc, String, Bool, true, false, not, ◌&&◌, ◌||◌, ◌≤◌, ◌≡◌, refl, ◌↔◌, Option, none, some,
  str_eq, if◌then◌else◌, arith, eq_iff, eq_refl,
}
use engineering_intelligence.Base.Int.{
  ℤ, pos, negsuc, ltb_ℤ, ◌≤ℤ◌, ◌+ℤ◌, ◌-ℤ◌, +ℤ_parts, -ℤ_parts, pos_part, neg_part,
}

-- `hmac_sha256` is the hexadecimal digest of `hmac.new(secret, payload, sha256)`, `int_text` is `str` of an
-- integer.
pub record Library : Type 0 where
  pub hmac_sha256 : String → String → String
  pub int_text : ℤ → String

pub record Approval : Type 0 where
  pub workflow_id : String
  pub approver : String
  pub plan_hash : String
  pub issued_at : ℤ
  pub signature : String

-- `int(now or time.time())`, where 0 counts as not given.
abbrev pub now_or : Option ℤ → ℤ → ℤ
now_or none clock = clock
now_or (some (pos zero)) clock = clock
now_or (some (pos (suc n))) clock = pos (suc n)
now_or (some (negsuc n)) clock = negsuc n

abbrev pub signed_text : Library → String → String → String → ℤ → String
signed_text lib workflow_id approver plan_hash issued_at =
    workflow_id ++ "|" ++ approver ++ "|" ++ plan_hash ++ "|" ++ lib.int_text issued_at

unfoldable pub issue_approval :
    Library → String → String → String → String → Option ℤ → ℤ → Approval
issue_approval lib workflow_id approver plan_hash secret now clock =
    let issued_at = now_or now clock in
    record {
      workflow_id = workflow_id;
      approver = approver;
      plan_hash = plan_hash;
      issued_at = issued_at;
      signature = lib.hmac_sha256 secret (signed_text lib workflow_id approver plan_hash issued_at);
    }

unfoldable pub verify_approval :
    Library → Approval → String → String → String → ℤ → Option ℤ → ℤ → Bool
verify_approval lib approval expected_workflow_id expected_plan_hash secret max_age_seconds now
      clock =
    let current = now_or now clock in
    if not (str_eq approval.workflow_id expected_workflow_id)
      || not (str_eq approval.plan_hash expected_plan_hash)
    then false
    else if ltb_ℤ max_age_seconds (current -ℤ approval.issued_at)
        || ltb_ℤ (current +ℤ pos 30) approval.issued_at
    then false
    else str_eq
        (lib.hmac_sha256 secret (
          signed_text lib approval.workflow_id approval.approver approval.plan_hash
            approval.issued_at))
        approval.signature

-- An approval that was issued verifies under the same secret exactly where its workflow and its plan are
-- the expected ones, it is not older than the age allowed, and it is at most 30 seconds ahead.
pub verify_approval-issue_approval :
    (lib : Library) (workflow_id approver plan_hash secret expected_workflow expected_plan : String)
    (issued current max_age : ℤ)
    → (verify_approval lib
          (issue_approval lib workflow_id approver plan_hash secret none issued)
          expected_workflow
          expected_plan
          secret
          max_age
          none
          current
        ≡ true)
      ↔ ((workflow_id ≡ expected_workflow)
          × (plan_hash ≡ expected_plan)
          × (current -ℤ issued ≤ℤ max_age)
          × (issued ≤ℤ current +ℤ pos 30))
unfolding verify_approval issue_approval
verify_approval-issue_approval lib workflow_id approver plan_hash secret expected_workflow
      expected_plan issued current max_age =
    let signature =
      lib.hmac_sha256 secret (signed_text lib workflow_id approver plan_hash issued) in
    (
      λ h. ground (arith, eq_iff workflow_id expected_workflow, eq_iff plan_hash expected_plan),
      λ h. ground (
        arith,
        eq_iff workflow_id expected_workflow,
        eq_iff plan_hash expected_plan,
        eq_refl signature,
      ),
    )
