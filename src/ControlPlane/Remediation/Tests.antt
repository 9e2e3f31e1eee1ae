-- ===== src/ControlPlane/Remediation/Tests.antt =====
-- The remediation workflows of the control plane at concrete inputs, where a digest is its text.
use Prim.Native.String.{◌++◌}
use engineering_intelligence.Base.{◌+◌, String, none, some, [], ◌∷◌, ◌≡◌, refl, ap, arith}
use engineering_intelligence.Base.Int.{pos, ◌≤ℤ◌, ◌+ℤ◌, ◌-ℤ◌}
use engineering_intelligence.Base.Result.{ok, raised}
use engineering_intelligence.State.Models.{WorkflowRecord, waiting_approval, executing}
use engineering_intelligence.State.Audit.{AuditEvent, AuditRow, row_of, append, last_hash}
use engineering_intelligence.State.Audit.Chain.{Holds}
use engineering_intelligence.State.Audit.Samples as AuditSamples
use engineering_intelligence.State.Store.{
  get_workflow, put_workflow, write_workflow, assert_expected, row_to_workflow,
}
use engineering_intelligence.State.Store.Samples
use engineering_intelligence.State.Store.Codec.{dumps_fields, loads_fields, loads-dumps}
use engineering_intelligence.State.Payload.{workflow_fields, workflow_of, optional_text}
use engineering_intelligence.State.Store.Advance.{IsKeyed, Reached-IsKeyed, opened, put_a_workflow}
use engineering_intelligence.Orchestration.Approvals.{Approval, issue_approval, verify_approval}
use engineering_intelligence.ControlPlane.Remediation.{
  Library, Stores, RemediationWorkflowPlan, not_waiting, plan_hash, prepare, approve, approve_plan,
  commit_approval, event_id_for, approval_event,
}
use engineering_intelligence.ControlPlane.Remediation.Approve.{Written, wrote, approve-Verified}
use engineering_intelligence.ControlPlane.Remediation.Once.{approval_is_spent}
use engineering_intelligence.ControlPlane.Remediation.Prepare
use engineering_intelligence.Base.{◌++◌ as ◌⧺◌}
use engineering_intelligence.State.Audit.{row_for}
use engineering_intelligence.ControlPlane.Remediation.Prepare.{prepared_plan_is_approved}

abbrev lib : Library
lib = record {
  store = Samples.lib;
  audit = AuditSamples.lib;
  approvals = record { hmac_sha256 = λ secret s. secret ++ s; int_text = λ n. "t" };
  compact = λ fields. "{}";
  nat_text = λ n. "n";
}

abbrev plan : RemediationWorkflowPlan
plan = record {
  workflow_id = "wf-1";
  service = "payments";
  environment = "prod";
  runbook_id = "aks.restart.crashloop";
  blast_radius = pos 1;
  evidence_ids = "e1" ∷ [];
  confidence = 860000;
}

abbrev start : Stores
start = record { tables = Samples.empty; log = [] }

abbrev ready : Stores
ready = (prepare lib plan "corr-1" "now" "now" start).1

abbrev waiting : WorkflowRecord
waiting = record {
  workflow_id = "wf-1";
  service_id = "payments";
  environment = "prod";
  kind = "remediation";
  status = waiting_approval;
  correlation_id = "corr-1";
  plan_hash = some (plan_hash lib plan);
  version = 1;
  updated_at = "now";
  tenant_id = "default";
}

is_prepared : prepare lib plan "corr-1" "now" "now" start ≡ (ok waiting, ready)
unfolding prepare put_workflow assert_expected append last_hash write_workflow
is_prepared = refl

abbrev approval : Approval
approval = issue_approval lib.approvals "wf-1" "alice" (plan_hash lib plan) "key" none (pos 100)

young : pos 200 -ℤ pos 100 ≤ℤ pos 900
unfolding ◌-ℤ◌
young = omega arith

close : pos 100 ≤ℤ pos 200 +ℤ pos 30
unfolding ◌+ℤ◌
close = omega arith

approval_is_new : row_of (event_id_for lib "wf-1" "approved" 2) ready.log ≡ none
unfolding prepare put_workflow assert_expected append last_hash write_workflow
approval_is_new = refl

prepared_plan_is_approved_example :
    (final : Stores) × (approve lib "wf-1" approval "key" none (pos 200) "later" ready
      ≡ (ok (Prepare.approved lib waiting), final))
    × (get_workflow lib.store "wf-1" final.tables ≡ ok (some (Prepare.approved lib waiting)))
    × (final.log
        ≡ ready.log
          ⧺ row_for lib.audit
              (approval_event lib waiting
                (plan_hash lib plan)
                "wf-1"
                "alice"
                "later"
                (Prepare.approved lib waiting))
              (last_hash ready.log)
            ∷ [])
prepared_plan_is_approved_example =
    prepared_plan_is_approved lib loads-dumps plan "corr-1" "now" "now" start waiting ready "alice"
      "key" (pos 100) (pos 200) "later" is_prepared young close approval_is_new

abbrev approved : Stores
approved = (approve lib "wf-1" approval "key" none (pos 200) "later" ready).1

abbrev running : WorkflowRecord
running = record waiting { status = executing; version = 2 }

is_approved :
    approve lib "wf-1" approval "key" none (pos 200) "later" ready ≡ (ok running, approved)
unfolding approve approve_plan commit_approval prepare get_workflow put_workflow assert_expected
    append last_hash write_workflow row_to_workflow dumps_fields loads_fields verify_approval
    issue_approval ◌+ℤ◌ ◌-ℤ◌ plan_hash workflow_fields workflow_of optional_text
is_approved = refl

approve-Verified_example :
    (workflow : WorkflowRecord) × (hash : String) × (final : AuditEvent) × (row : AuditRow)
    × Written lib "wf-1" approval "key" none (pos 200) "later" ready workflow hash running
    × (running ≡ record workflow { status = executing; version = workflow.version + 1 })
    × (get_workflow lib.store workflow.workflow_id approved.tables ≡ ok (some running))
    × (row_of (event_id_for lib "wf-1" "approved" running.version) approved.log ≡ some row)
    × Holds lib.audit AuditSamples.lossless
        (approval_event lib workflow hash "wf-1" approval.approver "later" running)
        final
        row
approve-Verified_example =
    approve-Verified lib "wf-1" approval "key" none (pos 200) "later" loads-dumps
      AuditSamples.lossless ready running approved is_approved

ready-IsKeyed : IsKeyed lib.store ready.tables
unfolding prepare put_workflow assert_expected append write_workflow
ready-IsKeyed = Reached-IsKeyed lib.store loads-dumps (put_a_workflow waiting none opened)

approval_is_spent_example :
    approve lib "wf-1" approval "key" none (pos 300) "again" approved
    ≡ (raised not_waiting, approved)
approval_is_spent_example =
    approval_is_spent lib loads-dumps "wf-1" approval "key" none (pos 200) "later" approval "key"
      none (pos 300) "again" ready ready-IsKeyed (ap (λ r. wrote r.0) is_approved)
