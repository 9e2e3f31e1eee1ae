-- ===== src/Orchestration/RemediationWorkflow/Tests.antt =====
-- The remediation workflow at concrete inputs.
use engineering_intelligence.Base.{String, ◌≡◌, refl, true, false, none, some, List, [], ◌∷◌, ◌++◌}
use engineering_intelligence.Base.Int.{ℤ, pos, ◌+ℤ◌}
use engineering_intelligence.Base.Result.{ok, raised}
use engineering_intelligence.Orchestration.RemediationWorkflow.{
  RemediationRequest, RemediationPlanResult, RemediationApprovalSignal, ActionOutcome,
  RemediationOutcome, bad_identifier, validate, workflow_id, is_identifier,
  evaluate_approval_signal, decide_after_plan, decide_after_approval, decide_after_policy,
  decide_after_rehearsal, terminal_status_for_action, remediation_workflows_enabled,
}
use engineering_intelligence.Base.Text.{is_blank, reads_as}
use engineering_intelligence.State.Lifecycle.{is_plan_hash}
use engineering_intelligence.Orchestration.RemediationWorkflow.Run.{
  World, run, drain, wait_until, await_approval, record_, finish, act, after_rehearsal, rehearse,
  after_policy, ask_policy, after_approval, check_approval, after_wait, wait, after_plan, make_plan,
}
use engineering_intelligence.Orchestration.RemediationWorkflow.Deadline.{
  signals, first_bound, wait_gives_first_bound,
}
use engineering_intelligence.Orchestration.RemediationWorkflow.Authority.{
  IsOrdered, fresh, action-Authorized,
}
use engineering_intelligence.Orchestration.RemediationWorkflow.Ends.{Ended, executions, run-Ended}

abbrev request : RemediationRequest
request = record {
  request_id = "r-1";
  incident_id = "inc-1";
  service = "payments";
  environment = "prod";
  correlation_id = "corr-1";
  tenant_id = "default";
  blast_radius = pos 1;
  approval_timeout_seconds = pos 60;
}

blank_tenant : validate (record request { tenant_id = "" }) ≡ raised (bad_identifier "tenant_id")
unfolding validate is_identifier
blank_tenant = refl

abbrev hash : String
hash = "sha256:0123456789abcdef0123456789abcdef0123456789abcdef0123456789abcdef"

abbrev plan : RemediationPlanResult
plan = record {
  workflow_id_ = "remediation:r-1";
  planned = true;
  reason = "crash loop";
  runbook_id = some "aks.restart.crashloop";
  plan_hash = some hash;
  confidence = 860;
  evidence_ids = "e-1" ∷ [];
  workflow_version = 3;
}

abbrev signal : RemediationApprovalSignal
signal = record {
  workflow_id_ = "remediation:r-1";
  approver = "alice";
  plan_hash = hash;
  issued_at = pos 100;
  signature = "abc";
}

abbrev outcome : ActionOutcome
outcome = record {
  status = "succeeded";
  reason = "allowed";
  execution_ref = some "run-1";
  verified = true;
  rollback_ref = none;
  error = none;
  from_status = "verifying";
  workflow_version = 5;
}

abbrev done : ActionOutcome → RemediationOutcome
done o = record {
  workflow_id_ = "remediation:r-1";
  status = o.status;
  reason = o.reason;
  plan_hash = some hash;
  approver = "alice";
  execution_ref = o.execution_ref;
  rollback_ref = o.rollback_ref;
  audit_event_hash = "h";
  mutation_attempted = true;
}

-- Everything is granted; a signal for another plan comes before the right one.
abbrev world : World
world = record {
  collect_evidence = λ past r at. ok (record {
    workflow_id_ = "remediation:r-1";
    workflow_version = 1;
    evidence = [];
    evidence_ids = [];
    audit_event_hash = "h";
  });
  plan_remediation = λ past r evidence at. ok plan;
  verify_approval =
      λ past r p s. ok (record { verified = true; reason = ""; approver = s.approver });
  evaluate_policy = λ past r p approved.
      ok (record { allowed = approved; reason = "allowed"; policy_revision = "1" });
  rehearse_in_twin =
      λ past r p approved. ok (record { safe_to_promote = true; status = "succeeded"; notes = [] });
  execute_action = λ past r p approved at. ok outcome;
  record_outcome = λ past r p o approver at. ok (done o);
  now = λ past. pos 0;
  now_text = λ past. "2026-01-01T00:00:00+00:00";
  arrivals =
      (pos 1000, record signal { plan_hash = "sha256:other" } ∷ []) ∷ (pos 2000, signal ∷ []) ∷ [];
}

succeeds : (run world request fresh).0 ≡ ok (done outcome)
unfolding run make_plan after_plan wait after_wait check_approval after_approval ask_policy
    after_policy rehearse after_rehearsal act record_ finish await_approval wait_until drain ◌+ℤ◌
    workflow_id validate is_identifier is_plan_hash evaluate_approval_signal decide_after_plan
    decide_after_approval decide_after_policy decide_after_rehearsal is_blank
succeeds = refl

too_late :
    executions
      (run (record world { arrivals = (pos 60000000, signal ∷ []) ∷ [] }) request fresh).1.history
    ≡ 0
unfolding run make_plan after_plan wait after_wait check_approval after_approval ask_policy
    after_policy rehearse after_rehearsal act record_ finish await_approval wait_until drain ◌+ℤ◌
    workflow_id validate is_identifier is_plan_hash evaluate_approval_signal decide_after_plan
    decide_after_approval decide_after_policy decide_after_rehearsal
too_late = refl

blocked_is_failed : terminal_status_for_action (record outcome { status = "blocked" }) ≡ "failed"
unfolding terminal_status_for_action
blocked_is_failed = refl

off_by_default : remediation_workflows_enabled (λ name. none) ≡ false
unfolding remediation_workflows_enabled reads_as
off_by_default = refl

-- A signal for another plan and the right one, twice, before the deadline; and one that comes too late.
abbrev early : List (ℤ × List RemediationApprovalSignal)
early =
    (pos 30, record signal { plan_hash = "sha256:other" } ∷ [])
    ∷ (pos 50, signal ∷ record signal { approver = "bob" } ∷ [])
    ∷ []

abbrev late : List (ℤ × List RemediationApprovalSignal)
late = (pos 60, record signal { approver = "eve" } ∷ []) ∷ []

first_is_alice : first_bound "remediation:r-1" (some hash) (signals early) ≡ some signal
unfolding is_plan_hash is_blank
first_is_alice = refl

wait_gives_first_bound_example :
    (wait_until (ok "remediation:r-1") (some hash) (pos 60) (pos 0) (early ++ late) []).0
    ≡ ok (first_bound "remediation:r-1" (some hash) (signals early))
wait_gives_first_bound_example =
    wait_gives_first_bound "remediation:r-1" (some hash) (pos 60) (pos 0) early late [] refl
      (refl, (refl, tt)) refl

action-Authorized_example : IsOrdered world request (run world request fresh).1.history
action-Authorized_example = action-Authorized world request

run-Ended_example : Ended world request (run world request fresh)
run-Ended_example = run-Ended world request
