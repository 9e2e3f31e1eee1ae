-- ===== src/ControlPlane/Remediation/Once.antt =====
-- An approval of control_plane/remediation.py is spent once, whatever is approved after it or beside it.
use engineering_intelligence.Base.{◌+◌, String, true, Option, some, ◌≡◌, refl, sym, ap, ◌∙◌}
use engineering_intelligence.Base.Int.{ℤ}
use engineering_intelligence.Base.Result.{ok, raised}
use engineering_intelligence.State.Models.{WorkflowRecord, executing}
use engineering_intelligence.State.Payload.{IsLossless}
use engineering_intelligence.State.Store.{
  get_workflow, put_workflow, version_conflict, unexpected_version,
}
use engineering_intelligence.State.Store.Advance.{IsKeyed}
use engineering_intelligence.State.Store.Versions.{put_workflow-get_workflow, put_workflow-conflict}
use engineering_intelligence.Orchestration.Approvals.{Approval}
use engineering_intelligence.ControlPlane.Remediation.{
  Library, Stores, store_error, not_waiting, approval_event, commit_approval, approve_plan, approve,
}
use engineering_intelligence.ControlPlane.Remediation.Approve.{
  wrote, approve-wrote, Written-version, commit_wrote,
}

module _ (lib : Library) where
  executing_is_refused :
      (workflow_id : String) (approval : Approval) (secret : String) (now : Option ℤ) (clock : ℤ)
      (occurred_at : String) (s : Stores) (workflow : WorkflowRecord) (hash : String)
      → get_workflow lib.store workflow_id s.tables ≡ ok (some workflow)
      → workflow.plan_hash ≡ some hash
      → workflow.status ≡ executing
      → approve lib workflow_id approval secret now clock occurred_at s ≡ (raised not_waiting, s)
  unfolding approve approve_plan
  executing_is_refused workflow_id approval secret now clock occurred_at s workflow hash read bound
        status =
      rw (read, bound, status) refl

  -- Once an approval of a workflow was accepted and the state written, even where its audit event was not,
  -- the next one for the workflow is refused, whoever signed it and whatever it says, and changes nothing.
  -- JSON is read as it was written, and records are stored under their own identifiers.
  pub approval_is_spent :
      (lossless : IsLossless lib.store) (workflow_id : String) (approval : Approval)
      (secret : String) (now : Option ℤ) (clock : ℤ) (occurred_at : String) (other : Approval)
      (other_secret : String) (other_now : Option ℤ) (other_clock : ℤ) (later : String) (s : Stores)
      → IsKeyed lib.store s.tables
      → wrote (approve lib workflow_id approval secret now clock occurred_at s).0 ≡ true
      → approve lib workflow_id other other_secret other_now other_clock later
          (approve lib workflow_id approval secret now clock occurred_at s).1
        ≡ (raised not_waiting, (approve lib workflow_id approval secret now clock occurred_at s).1)
  unfolding IsKeyed
  approval_is_spent lossless workflow_id approval secret now clock occurred_at other other_secret
        other_now other_clock later s keyed h =
      let after = (approve lib workflow_id approval secret now clock occurred_at s).1 in
      let (workflow, hash, updated, w) =
        approve-wrote lib workflow_id approval secret now clock occurred_at s h in
      let version =
        Written-version lib workflow_id approval secret now clock occurred_at s workflow updated
          hash w in
      let read =
        (put_workflow-get_workflow lib.store lossless (record workflow { status = executing })
          updated (some workflow.version) s.tables after.tables w.put_).2 in
      let id : workflow_id ≡ workflow.workflow_id = sym (keyed workflow_id workflow w.read) in
      executing_is_refused workflow_id other other_secret other_now other_clock later after updated
        hash (ap (λ i. get_workflow lib.store i after.tables) id ∙ read)
        (ap (λ r. r.plan_hash) version ∙ w.bound) (ap (λ r. r.status) version)

  put_is_refused :
      (workflow : WorkflowRecord) (hash workflow_id approver occurred_at : String) (s : Stores)
      → put_workflow lib.store
          (record workflow { status = executing })
          (some workflow.version)
          s.tables
        ≡ (
          raised (
              version_conflict (unexpected_version (some (workflow.version + 1)) workflow.version)),
          s.tables,
        )
      → commit_approval lib workflow hash workflow_id approver occurred_at s ≡ (
        raised (
            store_error (
              version_conflict
                (unexpected_version (some (workflow.version + 1)) workflow.version))),
        s,
      )
  unfolding commit_approval
  put_is_refused workflow hash workflow_id approver occurred_at s h = rw h refl

  -- Of two approvals that read the same record of a workflow, and passed their checks before either wrote,
  -- the second to write raises a conflict of versions and changes nothing.
  pub racing_approval_conflicts :
      (workflow : WorkflowRecord) (hash workflow_id approver occurred_at : String)
      (other_hash other_approver later : String) (s : Stores)
      → wrote (commit_approval lib workflow hash workflow_id approver occurred_at s).0 ≡ true
      → commit_approval lib workflow other_hash workflow_id other_approver later
          (commit_approval lib workflow hash workflow_id approver occurred_at s).1
        ≡ (
          raised (
              store_error (
                version_conflict
                  (unexpected_version (some (workflow.version + 1)) workflow.version))),
          (commit_approval lib workflow hash workflow_id approver occurred_at s).1,
        )
  unfolding commit_approval
  racing_approval_conflicts workflow hash workflow_id approver occurred_at other_hash other_approver
        later s h =
      let (updated, put_) =
        commit_wrote lib (approval_event lib workflow hash workflow_id approver occurred_at) s
          (put_workflow lib.store (record workflow { status = executing }) (some workflow.version)
            s.tables)
          h in
      put_is_refused workflow other_hash workflow_id other_approver later _ (
        put_workflow-conflict lib.store (record workflow { status = executing }) updated
          (record workflow { status = executing }) workflow.version s.tables _ refl put_)
