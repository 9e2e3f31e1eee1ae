-- ===== src/ControlPlane/Remediation.antt =====
-- control_plane/remediation.py: a remediation workflow is prepared, approved and finished over the state
-- store and the audit log. An exception leaves what was written before it. A confidence is in millionths,
-- and the payload of an audit event is carried as its JSON text.
pub mod Approve
pub mod Once
pub mod Prepare
mod Tests
use Prim.Native.String.{◌++◌}
use engineering_intelligence.Base.{ℕ, String, Bool, not, Option, none, some, List, [], ◌∷◌, ◌==◌}
use engineering_intelligence.Base.Int.{ℤ, pos}
use engineering_intelligence.Base.Dict.{Dict}
use engineering_intelligence.Base.Result.{Result, ok, raised}
use engineering_intelligence.Base.Stateful.{Call, ◌>>=◌, ◌>>◌, give, refuse, refuse_if}
use engineering_intelligence.State.Models.{
  WorkflowRecord, WorkflowStatus, waiting_approval, executing, succeeded, rolled_back, escalated,
  failed, same_status,
}
use engineering_intelligence.State.Payload
use engineering_intelligence.State.Payload.{Json, text, decimal, integer, texts, optional_text}
use engineering_intelligence.State.Audit
use engineering_intelligence.State.Audit.{AuditEvent, AuditError, Log, append}
use engineering_intelligence.State.Store.{Tables, StoreError, get_workflow, put_workflow}
use engineering_intelligence.Orchestration.Approvals
use engineering_intelligence.Orchestration.Approvals.{Approval, verify_approval}

-- `compact` is `json.dumps` with sorted keys, of an object whose keys are in order, and `nat_text` the
-- decimal text of a number.
pub record Library : Type 0 where
  pub store : Payload.Library
  pub audit : Audit.Library
  pub approvals : Approvals.Library
  pub compact : Dict Json → String
  pub nat_text : ℕ → String

pub data RemediationTerminalStatus : Type 0 where
  blocked denied succeeded_ rolled_back_ escalate failed_ : RemediationTerminalStatus

abbrev pub terminal_value : RemediationTerminalStatus → String
terminal_value blocked = "blocked"
terminal_value denied = "denied"
terminal_value succeeded_ = "succeeded"
terminal_value rolled_back_ = "rolled_back"
terminal_value escalate = "escalate"
terminal_value failed_ = "failed"

abbrev pub workflow_status_for_terminal : RemediationTerminalStatus → WorkflowStatus
workflow_status_for_terminal blocked = failed
workflow_status_for_terminal denied = failed
workflow_status_for_terminal succeeded_ = succeeded
workflow_status_for_terminal rolled_back_ = rolled_back
workflow_status_for_terminal escalate = escalated
workflow_status_for_terminal failed_ = failed

pub record RemediationWorkflowPlan : Type 0 where
  pub workflow_id : String
  pub service : String
  pub environment : String
  pub runbook_id : String
  pub blast_radius : ℤ
  pub evidence_ids : List String
  pub confidence : ℕ

-- `payload()` in the order of its keys, before what follows them in that order.
abbrev pub payload : RemediationWorkflowPlan → Dict Json → Dict Json
payload plan others =
    ("blast_radius", integer plan.blast_radius)
    ∷ ("confidence", decimal plan.confidence)
    ∷ ("environment", text plan.environment)
    ∷ ("evidence_ids", texts plan.evidence_ids)
    ∷ others

abbrev pub ending : RemediationWorkflowPlan → Dict Json
ending plan = ("runbook_id", text plan.runbook_id) ∷ ("service", text plan.service) ∷ []

-- `_hash(plan.payload())`
unfoldable pub plan_hash : Library → RemediationWorkflowPlan → String
plan_hash lib plan = "sha256:" ++ lib.store.sha256 (lib.compact (payload plan (ending plan)))

-- The state store and the audit log of a `RemediationWorkflows`.
pub record Stores : Type 0 where
  pub tables : Tables
  pub log : Log

-- What is raised: an error of the store or of the log, one of the two texts of `ValueError`, or
-- `PermissionError`.
pub data RemediationError : Type 0 where
  store_error : StoreError → RemediationError
  audit_error : AuditError → RemediationError
  not_found not_waiting not_permitted : RemediationError

abbrev pub Step : Type 0 → Type 0
Step A = Call Stores RemediationError A

abbrev pub by_store : {A : Type 0} → Result StoreError A → Result RemediationError A
by_store (ok a) = ok a
by_store (raised e) = raised (store_error e)

abbrev pub by_log : Result AuditError AuditEvent → Result RemediationError (Unit {0})
by_log (ok event) = ok tt
by_log (raised e) = raised (audit_error e)

module _ (lib : Library) where
  abbrev pub get : String → Step (Option WorkflowRecord)
  get workflow_id stores = (by_store (get_workflow lib.store workflow_id stores.tables), stores)

  abbrev pub put : WorkflowRecord → Option ℕ → Step WorkflowRecord
  put r expected stores =
      let written = put_workflow lib.store r expected stores.tables in
      (by_store written.0, record stores { tables = written.1 })

  abbrev pub report : AuditEvent → Step (Unit {0})
  report event stores =
      let written = append lib.audit event stores.log in
      (by_log written.0, record stores { log = written.1 })

  -- An event before it is chained.
  abbrev pub event_for :
      (event_id correlation_id actor action resource occurred_at : String) → Dict Json → AuditEvent
  event_for event_id correlation_id actor action resource occurred_at fields = record {
    event_id = event_id;
    correlation_id = correlation_id;
    actor = actor;
    action = action;
    resource = resource;
    payload = text (lib.compact fields);
    occurred_at = occurred_at;
    previous_hash = none;
    event_hash = none;
  }

  -- `f"{workflow_id}:{step}:{version}"`
  abbrev pub event_id_for : String → String → ℕ → String
  event_id_for workflow_id step version = workflow_id ++ ":" ++ step ++ ":" ++ lib.nat_text version

  -- The texts of the clock when the record and its event are made, and the generated correlation id.
  unfoldable pub prepare :
      RemediationWorkflowPlan → (uuid made_at occurred_at : String) → Step WorkflowRecord
  prepare plan uuid made_at occurred_at = do
    workflow ←
        put
          (record {
            workflow_id = plan.workflow_id;
            service_id = plan.service;
            environment = plan.environment;
            kind = "remediation";
            status = waiting_approval;
            correlation_id = uuid;
            plan_hash = some (plan_hash lib plan);
            version = 1;
            updated_at = made_at;
            tenant_id = "default";
          })
          none
    report (
        event_for (event_id_for workflow.workflow_id "planned" workflow.version)
          workflow.correlation_id "agent:remediation-planner" "prepare-remediation"
          workflow.workflow_id occurred_at
          (payload plan (
            ("plan_hash", text (plan_hash lib plan))
            ∷ ("runbook_id", text plan.runbook_id)
            ∷ ("service", text plan.service)
            ∷ [])))
    give workflow

  abbrev pub approval_event :
      WorkflowRecord
      → String
      → (workflow_id approver occurred_at : String) → WorkflowRecord
      → AuditEvent
  approval_event workflow hash workflow_id approver occurred_at updated =
      event_for (event_id_for workflow_id "approved" updated.version) workflow.correlation_id
        ("human:" ++ approver) "approve-remediation" workflow_id occurred_at
        (("plan_hash", text hash) ∷ [])

  -- What `approve` writes: the record at the next status, at the version that was read, and its event.
  unfoldable pub commit_approval :
      WorkflowRecord → String → (workflow_id approver occurred_at : String) → Step WorkflowRecord
  commit_approval workflow hash workflow_id approver occurred_at = do
    updated ← put (record workflow { status = executing }) (some workflow.version)
    report (approval_event workflow hash workflow_id approver occurred_at updated)
    give updated

  -- The checks of `approve` on the record that it read, before it writes.
  unfoldable pub approve_plan :
      WorkflowRecord
      → Option String
      → (workflow_id : String) → Approval
      → (secret : String) → Option ℤ
      → ℤ
      → (occurred_at : String) → Step WorkflowRecord
  approve_plan workflow none workflow_id approval secret now clock occurred_at = refuse not_found
  approve_plan workflow (some hash) workflow_id approval secret now clock occurred_at = do
    refuse_if (not (same_status workflow.status waiting_approval)) not_waiting
    refuse_if
        (not (
          verify_approval lib.approvals approval workflow.workflow_id hash secret (pos 900) now
            clock))
        not_permitted
    commit_approval workflow hash workflow_id approval.approver occurred_at

  abbrev pub approve_read :
      Option WorkflowRecord
      → (workflow_id : String) → Approval
      → (secret : String) → Option ℤ
      → ℤ
      → (occurred_at : String) → Step WorkflowRecord
  approve_read none workflow_id approval secret now clock occurred_at = refuse not_found
  approve_read (some workflow) workflow_id approval secret now clock occurred_at =
      approve_plan workflow workflow.plan_hash workflow_id approval secret now clock occurred_at

  unfoldable pub approve :
      (workflow_id : String)
      → Approval
      → (secret : String) → Option ℤ
      → ℤ
      → (occurred_at : String) → Step WorkflowRecord
  approve workflow_id approval secret now clock occurred_at = do
    found ← get workflow_id
    approve_read found workflow_id approval secret now clock occurred_at

  abbrev pub finish_read :
      Option WorkflowRecord
      → (workflow_id : String) → RemediationTerminalStatus
      → (execution_ref rollback_ref : Option String) → (occurred_at : String) → Step WorkflowRecord
  finish_read none workflow_id status execution_ref rollback_ref occurred_at = refuse not_found
  finish_read (some workflow) workflow_id status execution_ref rollback_ref occurred_at = do
    updated ←
        put (record workflow { status = workflow_status_for_terminal status })
          (some workflow.version)
    report (
        event_for (event_id_for workflow_id "result" updated.version) workflow.correlation_id
          "agent:remediation-executor" "finish-remediation" workflow_id occurred_at
          (("execution_ref", optional_text execution_ref)
            ∷ ("rollback_ref", optional_text rollback_ref)
            ∷ ("status", text (terminal_value status))
            ∷ []))
    give updated

  unfoldable pub finish :
      (workflow_id : String)
      → RemediationTerminalStatus
      → (execution_ref rollback_ref : Option String) → (occurred_at : String) → Step WorkflowRecord
  finish workflow_id status execution_ref rollback_ref occurred_at = do
    found ← get workflow_id
    finish_read found workflow_id status execution_ref rollback_ref occurred_at
