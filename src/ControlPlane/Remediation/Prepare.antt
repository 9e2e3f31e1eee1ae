-- ===== src/ControlPlane/Remediation/Prepare.antt =====
-- A prepared plan of control_plane/remediation.py can be approved.
use engineering_intelligence.Base.{
  ◌+◌, ℕ, String, true, Option, none, some, [], ◌∷◌, ◌++◌, ◌≡◌, refl, sym, ap, ◌∙◌, ◌==◌, arith,
}
use engineering_intelligence.Base.Int.{ℤ, pos, ◌≤ℤ◌, ◌+ℤ◌, ◌-ℤ◌}
use engineering_intelligence.Base.Result.{Result, ok, raised}
use engineering_intelligence.Base.Stateful.{continue, ◌>>◌, give}
use engineering_intelligence.State.Models.{WorkflowRecord, executing, waiting_approval, same_status}
use engineering_intelligence.State.Payload.{IsLossless}
use engineering_intelligence.State.Audit.{AuditEvent, append, row_of, row_for, last_hash}
use engineering_intelligence.State.Store.{
  Tables, StoreError, get_workflow, put_workflow, write_workflow, assert_expected,
}
use engineering_intelligence.State.Store.Versions.{
  current_version, current_version-written, put_workflow-returned, get_workflow-written,
}
use engineering_intelligence.Orchestration.Approvals.{
  Approval, issue_approval, verify_approval, verify_approval-issue_approval,
}
use engineering_intelligence.ControlPlane.Remediation.{
  Library, Stores, RemediationWorkflowPlan, plan_hash, approval_event, by_store, report, prepare,
  commit_approval, approve_plan, approve, event_id_for,
}
use engineering_intelligence.ControlPlane.Remediation.Approve.{report_returned, report_keeps}

module _ (lib : Library) where
  abbrev prepared : RemediationWorkflowPlan → (uuid made_at : String) → WorkflowRecord
  prepared plan uuid made_at = record {
    workflow_id = plan.workflow_id;
    service_id = plan.service;
    environment = plan.environment;
    kind = "remediation";
    status = waiting_approval;
    correlation_id = uuid;
    plan_hash = some (plan_hash lib plan);
    version = 1;
    updated_at = made_at;
    tenant_id = "default";
  }

  prepare_returned :
      (event : WorkflowRecord → AuditEvent) (s : Stores)
      (written : Result StoreError WorkflowRecord × Tables) {b : WorkflowRecord} {after : Stores}
      → continue
          (by_store written.0, record s { tables = written.1 })
          (λ updated. report lib (event updated) >> give updated)
        ≡ (ok b, after)
      → written ≡ (ok b, after.tables)
  prepare_returned event s (ok updated, tables) h =
      let (final, appends, same) =
        report_returned updated (record s { tables = tables })
          (append lib.audit (event updated) s.log) h in
      let kept =
        report_keeps updated (record s { tables = tables })
          (append lib.audit (event updated) s.log) in
      let tail : tables ≡ _ = sym kept ∙ ap (λ r. r.1.tables) h in rw (same, tail) refl
  prepare_returned event s (raised e, tables) h = cc

  -- The record that an approval writes.
  abbrev pub approved : WorkflowRecord → WorkflowRecord
  approved workflow = record workflow { status = executing; version = workflow.version + 1 }

  -- The stores after the approval of a record.
  abbrev pub approved_stores :
      WorkflowRecord → (hash workflow_id approver occurred_at : String) → Stores → Stores
  approved_stores workflow hash workflow_id approver occurred_at s = record {
    tables = write_workflow lib.store (approved workflow) s.tables;
    log =
        s.log
        ++ row_for lib.audit
            (approval_event lib workflow hash workflow_id approver occurred_at (approved workflow))
            (last_hash s.log)
          ∷ [];
  }

  put_at_version :
      (r : WorkflowRecord) (version : ℕ) (tables : Tables)
      → current_version r.workflow_id tables ≡ some version
      → put_workflow lib.store r (some version) tables ≡ (
        ok (record r { version = version + 1 }),
        write_workflow lib.store (record r { version = version + 1 }) tables,
      )
  unfolding put_workflow assert_expected
  put_at_version r version tables now =
      let same : (version == version) ≡ true = ground arith in rw (now, same) refl

  commits :
      (workflow : WorkflowRecord) (hash workflow_id approver occurred_at : String) (s : Stores)
      → current_version workflow.workflow_id s.tables ≡ some workflow.version
      → row_of (event_id_for lib workflow_id "approved" (workflow.version + 1)) s.log ≡ none
      → commit_approval lib workflow hash workflow_id approver occurred_at s
        ≡ (ok (approved workflow), approved_stores workflow hash workflow_id approver occurred_at s)
  unfolding commit_approval append
  commits workflow hash workflow_id approver occurred_at s now new =
      rw
        (put_at_version (record workflow { status = executing }) workflow.version s.tables now, new)
        refl

  plan_approves :
      (workflow : WorkflowRecord) (planned : Option String) (hash workflow_id : String)
      (approval : Approval) (secret : String) (clock : ℤ) (occurred_at : String) (s : Stores)
      → planned ≡ some hash
      → same_status workflow.status waiting_approval ≡ true
      → verify_approval lib.approvals approval workflow.workflow_id hash secret (pos 900) none clock
        ≡ true
      → approve_plan lib workflow planned workflow_id approval secret none clock occurred_at s
        ≡ commit_approval lib workflow hash workflow_id approval.approver occurred_at s
  unfolding approve_plan
  plan_approves workflow planned hash workflow_id approval secret clock occurred_at s bound waiting
        verified =
      rw (bound, waiting, verified) refl

  approves :
      (workflow : WorkflowRecord) (hash workflow_id : String) (approval : Approval)
      (secret : String) (clock : ℤ) (occurred_at : String) (s : Stores)
      → get_workflow lib.store workflow_id s.tables ≡ ok (some workflow)
      → workflow.status ≡ waiting_approval
      → workflow.plan_hash ≡ some hash
      → verify_approval lib.approvals approval workflow.workflow_id hash secret (pos 900) none clock
        ≡ true
      → approve lib workflow_id approval secret none clock occurred_at s
        ≡ commit_approval lib workflow hash workflow_id approval.approver occurred_at s
  unfolding approve
  approves workflow hash workflow_id approval secret clock occurred_at s read waiting bound
        verified =
      rw read (
        plan_approves workflow workflow.plan_hash hash workflow_id approval secret clock occurred_at
          s bound (ap (λ t. same_status t waiting_approval) waiting) verified)

  -- After a plan was prepared, an approval issued for its workflow and the hash of the plan, under the same
  -- secret, makes approve return, until 900 seconds after it was issued and not more than 30 before: the
  -- record that was prepared, as executing at the next version, is what is returned and what is read then,
  -- and the log has its event after those it had. JSON is read as it was written, and the log has no event
  -- of the identifier of that approval yet.
  pub prepared_plan_is_approved :
      (lossless : IsLossless lib.store) (plan : RemediationWorkflowPlan)
      (uuid made_at occurred_at : String) (s : Stores) (workflow : WorkflowRecord) (after : Stores)
      (approver secret : String) (issued clock : ℤ) (later : String)
      → prepare lib plan uuid made_at occurred_at s ≡ (ok workflow, after)
      → clock -ℤ issued ≤ℤ pos 900
      → issued ≤ℤ clock +ℤ pos 30
      → row_of (event_id_for lib plan.workflow_id "approved" (workflow.version + 1)) after.log
        ≡ none
      → (final : Stores) × (approve lib plan.workflow_id
            (issue_approval lib.approvals plan.workflow_id approver
              (plan_hash lib plan)
              secret
              none
              issued)
            secret
            none
            clock
            later
            after
          ≡ (ok (approved workflow), final))
        × (get_workflow lib.store plan.workflow_id final.tables ≡ ok (some (approved workflow)))
        × (final.log
            ≡ after.log
              ++ row_for lib.audit
                  (approval_event lib workflow
                    (plan_hash lib plan)
                    plan.workflow_id
                    approver
                    later
                    (approved workflow))
                  (last_hash after.log)
                ∷ [])
  unfolding prepare issue_approval
  prepared_plan_is_approved lossless plan uuid made_at occurred_at s workflow after approver secret
        issued clock later h young close new =
      let written =
        prepare_returned _ s (put_workflow lib.store (prepared plan uuid made_at) none s.tables)
          h in
      let (passed, stored, tables) =
        put_workflow-returned lib.store (prepared plan uuid made_at) workflow none s.tables
          after.tables written in
      let id : workflow.workflow_id ≡ plan.workflow_id = ap (λ r. r.workflow_id) stored in
      let approval =
        issue_approval lib.approvals plan.workflow_id approver (plan_hash lib plan) secret none
          issued in
      let verified =
        (verify_approval-issue_approval lib.approvals plan.workflow_id approver (plan_hash lib plan)
            secret workflow.workflow_id (plan_hash lib plan) issued clock (pos 900)).1
          (sym id, refl, young, close) in
      let final =
        approved_stores workflow (plan_hash lib plan) plan.workflow_id approver later after in
      let accepted =
        approves workflow (plan_hash lib plan) plan.workflow_id approval secret clock later after
          (ap (λ i. get_workflow lib.store i after.tables) (sym id)
            ∙ (ap (get_workflow lib.store workflow.workflow_id) tables
                ∙ get_workflow-written lib.store lossless workflow s.tables))
          (ap (λ r. r.status) stored) (ap (λ r. r.plan_hash) stored) verified in
      let done =
        commits workflow (plan_hash lib plan) plan.workflow_id approver later after
          (ap (current_version workflow.workflow_id) tables
            ∙ current_version-written lib.store workflow s.tables)
          new in
      (
        final,
        accepted ∙ done,
        ap (λ i. get_workflow lib.store i final.tables) (sym id)
            ∙ get_workflow-written lib.store lossless (approved workflow) after.tables,
        refl,
      )
