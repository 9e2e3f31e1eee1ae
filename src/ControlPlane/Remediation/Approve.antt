-- ===== src/ControlPlane/Remediation/Approve.antt =====
-- What `approve` of control_plane/remediation.py does where it writes the state store.
use engineering_intelligence.Base.{
  ◌+◌, String, Bool, true, false, not, Option, none, some, ◌≡◌, refl, sym, ap, ◌∙◌, arith,
}
use engineering_intelligence.Base.Int.{ℤ, pos}
use engineering_intelligence.Base.Result.{Result, ok, raised}
use engineering_intelligence.Base.Stateful.{continue, ◌>>◌, give, refuse_if}
use engineering_intelligence.State.Models.{
  WorkflowRecord, waiting_approval, executing, same_status, same_status-eq,
}
use engineering_intelligence.State.Payload.{IsLossless}
use engineering_intelligence.State.Audit.{AuditEvent, AuditError, Log, append, row_of, AuditRow}
use engineering_intelligence.State.Audit.Chain
use engineering_intelligence.State.Audit.Chain.{Holds, appended}
use engineering_intelligence.State.Store.{Tables, StoreError, get_workflow, put_workflow}
use engineering_intelligence.State.Store.Versions.{
  assert_expected-passed, current_version, put_workflow-returned, put_workflow-get_workflow,
}
use engineering_intelligence.Orchestration.Approvals.{Approval, verify_approval}
use engineering_intelligence.ControlPlane.Remediation.{
  Library, Stores, RemediationError, store_error, audit_error, not_found, not_waiting,
  not_permitted, Step, by_store, by_log, approval_event, report, event_id_for, commit_approval,
  approve_plan, approve_read, approve,
}

-- Whether an answer of `approve` came after its write of the state: it returned, or the audit log raised.
abbrev pub wrote : Result RemediationError WorkflowRecord → Bool
wrote (ok updated) = true
wrote (raised (audit_error e)) = true
wrote (raised (store_error e)) = false
wrote (raised not_found) = false
wrote (raised not_waiting) = false
wrote (raised not_permitted) = false

guard_wrote :
    (c : Bool) (e : RemediationError) (rest : Step WorkflowRecord) (s : Stores)
    → wrote (raised e) ≡ false
    → wrote ((refuse_if c e >> rest) s).0 ≡ true
    → (c ≡ false) × ((refuse_if c e >> rest) s ≡ rest s)
guard_wrote true e rest s harmless h = cc
guard_wrote false e rest s harmless h = (refl, refl)

-- Reporting changes no table, and what follows it has the answer of the log.
pub report_keeps :
    (updated : WorkflowRecord) (s : Stores) (written : Result AuditError AuditEvent × Log)
    → (continue (by_log written.0, record s { log = written.1 }) (λ _. give updated)).1.tables
      ≡ s.tables
report_keeps updated s (ok event, log) = refl
report_keeps updated s (raised e, log) = refl

pub report_returned :
    (updated : WorkflowRecord) (s : Stores) (written : Result AuditError AuditEvent × Log)
    {b : WorkflowRecord} {after : Stores}
    → continue (by_log written.0, record s { log = written.1 }) (λ _. give updated) ≡ (ok b, after)
    → (final : AuditEvent) × (written ≡ (ok final, after.log)) × (updated ≡ b)
report_returned updated s (ok event, log) h =
    (event, (let tail : log ≡ _ = ap (λ r. r.1.log) h in rw tail refl), cc)
report_returned updated s (raised e, log) h = cc

same_return :
    (answer : Result StoreError WorkflowRecord) {a b : WorkflowRecord}
    → answer ≡ ok a
    → answer ≡ ok b
    → a ≡ b
same_return answer h k = cc

module _ (lib : Library) where
  pub commit_wrote :
      (event : WorkflowRecord → AuditEvent) (s : Stores)
      (written : Result StoreError WorkflowRecord × Tables)
      → wrote
          (continue
            (by_store written.0, record s { tables = written.1 })
            (λ updated. report lib (event updated) >> give updated)).0
        ≡ true
      → (updated : WorkflowRecord) × (written ≡ (
        ok updated,
        (continue
            (by_store written.0, record s { tables = written.1 })
            (λ u. report lib (event u) >> give u)).1.tables,
      ))
  commit_wrote event s (ok updated, tables) h = (
    updated,
    rw
        (report_keeps updated (record s { tables = tables })
          (append lib.audit (event updated) s.log))
        refl,
  )
  commit_wrote event s (raised e, tables) h = cc

  commit_returned :
      (event : WorkflowRecord → AuditEvent) (s : Stores)
      (written : Result StoreError WorkflowRecord × Tables) {b : WorkflowRecord} {after : Stores}
      → continue
          (by_store written.0, record s { tables = written.1 })
          (λ updated. report lib (event updated) >> give updated)
        ≡ (ok b, after)
      → (final : AuditEvent) × (append lib.audit (event b) s.log ≡ (ok final, after.log))
        × (written.0 ≡ ok b)
  commit_returned event s (ok updated, tables) h =
      let (final, appends, same) =
        report_returned updated (record s { tables = tables })
          (append lib.audit (event updated) s.log) h in
      (final, rw (sym same) appends, ap ok same)
  commit_returned event s (raised e, tables) h = cc

  module _ (workflow_id : String) (approval : Approval) (secret : String) (now : Option ℤ)
      (clock : ℤ) (occurred_at : String) where
    -- What `approve` read and checked before it wrote, and the write.
    pub record Written (s : Stores) (workflow : WorkflowRecord) (hash : String)
        (updated : WorkflowRecord) : Type 0 where
      pub read : get_workflow lib.store workflow_id s.tables ≡ ok (some workflow)
      pub waiting : workflow.status ≡ waiting_approval
      pub bound : workflow.plan_hash ≡ some hash
      pub verified :
          verify_approval lib.approvals approval workflow.workflow_id hash secret
            (pos 900)
            now
            clock
          ≡ true
      pub put_ :
          put_workflow lib.store
            (record workflow { status = executing })
            (some workflow.version)
            s.tables
          ≡ (ok updated, (approve lib workflow_id approval secret now clock occurred_at s).1.tables)
      pub commits :
          approve lib workflow_id approval secret now clock occurred_at s
          ≡ commit_approval lib workflow hash workflow_id approval.approver occurred_at s

    plan_wrote :
        (workflow : WorkflowRecord) (planned : Option String) (s : Stores)
        → wrote
            (approve_plan lib workflow planned workflow_id approval secret now clock occurred_at
              s).0
          ≡ true
        → (hash : String) × (workflow.status ≡ waiting_approval)
          × (planned ≡ some hash)
          × (verify_approval lib.approvals approval workflow.workflow_id hash secret
                (pos 900)
                now
                clock
              ≡ true)
          × (approve_plan lib workflow planned workflow_id approval secret now clock occurred_at s
              ≡ commit_approval lib workflow hash workflow_id approval.approver occurred_at s)
    unfolding approve_plan
    plan_wrote workflow none s h = cc
    plan_wrote workflow (some hash) s h =
        let commit = commit_approval lib workflow hash workflow_id approval.approver occurred_at in
        let verifies =
          verify_approval lib.approvals approval workflow.workflow_id hash secret (pos 900) now
            clock in
        let (waiting, after_status) =
          guard_wrote (not (same_status workflow.status waiting_approval)) not_waiting
            (refuse_if (not verifies) not_permitted >> commit) s refl h in
        let (verified, after_check) =
          guard_wrote (not verifies) not_permitted commit s refl
            (ap (λ r. wrote r.0) (sym after_status) ∙ h) in
        (
          hash,
          same_status-eq workflow.status waiting_approval (ground arith),
          refl,
          ground arith,
          after_status ∙ after_check,
        )

    read_wrote :
        (found : Result StoreError (Option WorkflowRecord)) (s : Stores)
        → wrote
            (continue
              (by_store found, s)
              (λ r. approve_read lib r workflow_id approval secret now clock occurred_at)).0
          ≡ true
        → (workflow : WorkflowRecord) × (found ≡ ok (some workflow))
          × (wrote
                (approve_plan lib workflow workflow.plan_hash workflow_id approval secret now clock
                  occurred_at s).0
              ≡ true)
          × (continue
                (by_store found, s)
                (λ r. approve_read lib r workflow_id approval secret now clock occurred_at)
              ≡ approve_plan lib workflow workflow.plan_hash workflow_id approval secret now clock
                  occurred_at s)
    read_wrote (raised e) s h = cc
    read_wrote (ok none) s h = cc
    read_wrote (ok (some workflow)) s h = (workflow, refl, h, refl)

    pub approve-wrote :
        (s : Stores)
        → wrote (approve lib workflow_id approval secret now clock occurred_at s).0 ≡ true
        → (workflow : WorkflowRecord) × (hash : String) × (updated : WorkflowRecord) × Written s
            workflow hash updated
    unfolding approve commit_approval
    approve-wrote s h =
        let (workflow, read, goes, reads) =
          read_wrote (get_workflow lib.store workflow_id s.tables) s h in
        let (hash, waiting, bound, verified, plans) =
          plan_wrote workflow workflow.plan_hash s goes in
        let all = reads ∙ plans in
        let (updated, put_) =
          commit_wrote (approval_event lib workflow hash workflow_id approval.approver occurred_at)
            s
            (put_workflow lib.store (record workflow { status = executing }) (some workflow.version)
              s.tables)
            (ap (λ r. wrote r.0) (sym all) ∙ h) in
        (
          workflow,
          hash,
          updated,
          record {
            read = read;
            waiting = waiting;
            bound = bound;
            verified = verified;
            put_ = rw all put_;
            commits = all;
          },
        )

    pub Written-version :
        (s : Stores) (workflow updated : WorkflowRecord) (hash : String)
        → Written s workflow hash updated
        → updated ≡ record workflow { status = executing; version = workflow.version + 1 }
    Written-version s workflow updated hash w =
        let (passed, stored, tables) =
          put_workflow-returned lib.store (record workflow { status = executing }) updated
            (some workflow.version) s.tables _ w.put_ in
        let expected =
          assert_expected-passed (current_version workflow.workflow_id s.tables)
            (some workflow.version) passed in
        let found : current_version workflow.workflow_id s.tables ≡ some workflow.version =
          ground arith in
        stored ∙ rw found refl

    -- An approval that is accepted was one of a workflow that was read as waiting for it, for the hash of its
    -- plan, and verified. The workflow is then read as executing, at the next version, and the log has an
    -- event of that version. JSON is read as it was written.
    pub approve-Verified :
        (lossless : IsLossless lib.store) (log_lossless : Chain.IsLossless lib.audit) (s : Stores)
        (updated : WorkflowRecord) (after : Stores)
        → approve lib workflow_id approval secret now clock occurred_at s ≡ (ok updated, after)
        → (workflow : WorkflowRecord) × (hash : String) × (final : AuditEvent) × (row : AuditRow)
          × Written s workflow hash updated
          × (updated ≡ record workflow { status = executing; version = workflow.version + 1 })
          × (get_workflow lib.store workflow.workflow_id after.tables ≡ ok (some updated))
          × (row_of (event_id_for lib workflow_id "approved" updated.version) after.log ≡ some row)
          × Holds lib.audit log_lossless
              (approval_event lib workflow hash workflow_id approval.approver occurred_at updated)
              final
              row
    unfolding commit_approval
    approve-Verified lossless log_lossless s updated after h =
        let (workflow, hash, stored, w) = approve-wrote s (ap (λ r. wrote r.0) h) in
        let written =
          put_workflow lib.store (record workflow { status = executing }) (some workflow.version)
            s.tables in
        let (final, appends, returned) =
          commit_returned
            (approval_event lib workflow hash workflow_id approval.approver occurred_at) s written
            (sym w.commits ∙ h) in
        let same : stored ≡ updated = same_return written.0 (ap (λ r. r.0) w.put_) returned in
        let checked : Written s workflow hash updated = rw (sym same) w in
        let (row, found, holds) =
          appended lib.audit log_lossless
            (approval_event lib workflow hash workflow_id approval.approver occurred_at updated)
            final s.log after.log appends in
        let read =
          (put_workflow-get_workflow lib.store lossless (record workflow { status = executing })
            updated (some workflow.version) s.tables _ checked.put_).2 in
        (
          workflow,
          hash,
          final,
          row,
          checked,
          Written-version s workflow updated hash checked,
          rw (sym (ap (λ r. r.1.tables) h)) read,
          found,
          holds,
        )
