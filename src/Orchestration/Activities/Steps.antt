-- ===== src/Orchestration/Activities/Steps.antt =====
-- The activities of `RemediationActivities` in orchestration/control_plane_activities.py over the state store
-- and the audit sink. The provider of evidence, the control loop for the configured catalog, adapter and
-- evaluator, `str.strip` and the canonical JSON of a mapping are fields of `Configuration`.
use Prim.Native.String.{◌++◌}
use engineering_intelligence.Base.{
  ℕ, String, Bool, true, false, not, ◌&&◌, Option, none, some, List, [], ◌∷◌, str_eq, map,
  if◌then◌else◌,
}
use engineering_intelligence.Base.Int.{ℤ, pos}
use engineering_intelligence.Base.Dict.{Dict, lookup}
use engineering_intelligence.Base.Result.{Result, ok, raised}
use engineering_intelligence.Base.Stateful.{Call, ◌>>=◌, ◌>>◌, give, refuse, refuse_if}
use engineering_intelligence.State.Models.{
  WorkflowStatus, received, planned, waiting_approval, executing, verifying, succeeded, rolled_back,
  escalated, failed,
}
use engineering_intelligence.State.Lifecycle.{WorkflowLifecycleEvent}
use engineering_intelligence.State.Payload.{
  Json, text, integer, texts, boolean, optional_text, status_of,
}
use engineering_intelligence.ControlPlane.Runtime.{Environ}
use engineering_intelligence.ControlPlane.Remediation
use engineering_intelligence.ControlPlane.Remediation.{RemediationWorkflowPlan, plan_hash, payload}
use engineering_intelligence.Intelligence.Incidents
use engineering_intelligence.Intelligence.Incidents.{EvidenceEvent, analyze_incident}
use engineering_intelligence.Remediation.Planner.{RemediationPlan, plan_from_incident}
use engineering_intelligence.Remediation.Policy.{ServiceAutonomy, ActionRequest}
use engineering_intelligence.Orchestration.Approvals
use engineering_intelligence.Orchestration.Approvals.{Approval}
use engineering_intelligence.Orchestration.RemediationWorkflow.{
  RemediationRequest, RequestError, EvidenceBundle, RemediationPlanResult,
  RemediationApprovalSignal, ApprovalVerification, ActionOutcome, RemediationOutcome, is_missing,
  validate, workflow_id, remediation_workflows_enabled, terminal_status_for_action,
}
use engineering_intelligence.Orchestration.Activities.{
  Sink, Stores, BridgeError, WorkflowLifecycleActivityResult, persist_workflow_lifecycle,
}
use engineering_intelligence.Orchestration.Activities.Evidence.{
  Clock, EvidenceError, evidence_to_mapping, events_of,
}

-- An `ExecutionResult` with its texts.
pub record LoopAnswer : Type 0 where
  pub status : String
  pub reason : String
  pub execution_ref : Option String
  pub verified : Bool
  pub rollback_ref : Option String
  pub error : Option String

pub record Configuration : Type 1 where
  pub control : Remediation.Library
  pub incidents : Incidents.Library
  pub millionths : incidents.Float → ℕ
  pub sink : Sink
  pub environ : Environ
  pub actor : String
  pub evidence_provider : String → String → String → Result String (List EvidenceEvent)
  pub approval_secret : String
  pub autonomy_policies : List ServiceAutonomy
  pub control_loop : ServiceAutonomy → ActionRequest → Result String LoopAnswer
  pub clock : Clock
  pub time : ℤ
  pub strip : String → String
  pub canonical : Dict Json → String

pub data StepError : Type 0 where
  disabled no_step_time no_evidence no_policy unknown_status : StepError
  invalid_request : RequestError → StepError
  bad_evidence : EvidenceError → StepError
  provider_failed loop_failed : String → StepError
  not_persisted : BridgeError → StepError

abbrev pub Step : Type 0 → Type 0
Step A = Call Stores StepError A

abbrev pub lift : {E A : Type 0} → (E → StepError) → Result E A → Step A
lift name (ok a) stores = (ok a, stores)
lift name (raised e) stores = (raised (name e), stores)

abbrev pub or_raise : {A : Type 0} → StepError → Option A → Step A
or_raise e none stores = (raised e, stores)
or_raise e (some a) stores = (ok a, stores)

-- `_TERMINAL_WORKFLOW_STATUS`
abbrev pub terminal_workflow_status : Dict WorkflowStatus
terminal_workflow_status =
    ("succeeded", succeeded)
    ∷ ("rolled_back", rolled_back)
    ∷ ("escalated", escalated)
    ∷ ("denied", failed)
    ∷ ("failed", failed)
    ∷ []

abbrev pub plan_hash_of : Option RemediationPlanResult → Option String
plan_hash_of none = none
plan_hash_of (some plan) = plan.plan_hash

abbrev pub is_some_ref : Option String → Bool
is_some_ref none = false
is_some_ref (some ref) = true

module _ (activities : Configuration) where
  -- `require_remediation_workflows`
  abbrev pub require_enabled : Step (Unit {0})
  require_enabled = refuse_if (not (remediation_workflows_enabled activities.environ)) disabled

  -- `_require_step_time`
  abbrev pub step_time : String → Step String
  step_time occurred_at = do
    refuse_if (str_eq (activities.strip occurred_at) "") no_step_time
    give (activities.strip occurred_at)

  abbrev pub is_policy_for : RemediationRequest → ServiceAutonomy → Bool
  is_policy_for request policy =
      str_eq policy.service request.service && str_eq policy.environment request.environment

  -- `_autonomy`
  unfoldable pub autonomy : RemediationRequest → List ServiceAutonomy → Option ServiceAutonomy
  autonomy request [] = none
  autonomy request (policy ∷ policies) =
      let rest = autonomy request policies in
      if is_policy_for request policy then some policy else rest

  -- The event of `_advance`, for a request of that workflow identifier.
  abbrev pub step_event :
      RemediationRequest
      → (id step action : String) → Option WorkflowStatus
      → Option ℕ
      → WorkflowStatus
      → (occurred_at : String) → Option String
      → Dict Json
      → Bool
      → WorkflowLifecycleEvent
  step_event request id step action from expected to occurred_at hash attributes consequential =
      record {
        event_id = id ++ ":" ++ step;
        idempotency_key = id ++ ":" ++ step;
        workflow_id = id;
        tenant_id = request.tenant_id;
        service_id = request.service;
        environment = request.environment;
        kind = "remediation";
        correlation_id = request.correlation_id;
        actor = activities.actor;
        action = action;
        from_status = from;
        to_status = to;
        expected_version = expected;
        plan_hash = hash;
        causation_id = none;
        consequential = consequential;
        attributes = some (activities.canonical attributes);
        occurred_at = occurred_at;
        schema_version = 1;
      }

  abbrev pub persist : WorkflowLifecycleEvent → Step WorkflowLifecycleActivityResult
  persist event stores =
      let answer =
        persist_workflow_lifecycle activities.control.store activities.sink event stores in
      lift not_persisted answer.0 answer.1

  -- `_advance`
  unfoldable pub advance :
      RemediationRequest
      → (step action : String) → Option WorkflowStatus
      → Option ℕ
      → WorkflowStatus
      → (occurred_at : String) → Option String
      → Dict Json
      → Bool
      → Step WorkflowLifecycleActivityResult
  advance request step action from expected to occurred_at hash attributes consequential = do
    id ← lift invalid_request (workflow_id request)
    persist (
        step_event request id step action from expected to occurred_at hash attributes
          consequential)

  unfoldable pub collect_evidence : RemediationRequest → String → Step EvidenceBundle
  unfolding advance
  collect_evidence request occurred_at = do
    require_enabled
    lift invalid_request (validate request)
    events ←
        lift provider_failed
          (activities.evidence_provider request.incident_id request.service request.environment)
    time ← step_time occurred_at
    result ←
        advance request "evidence" "collect-remediation-evidence" none none received time none
          (("evidence_ids", texts (map (λ e. e.id) events))
            ∷ ("incident_id", text request.incident_id)
            ∷ [])
          false
    id ← lift invalid_request (workflow_id request)
    give (record {
      workflow_id_ = id;
      workflow_version = result.workflow_version;
      evidence = map (evidence_to_mapping activities.clock) events;
      evidence_ids = map (λ e. e.id) events;
      audit_event_hash = result.audit_event_hash;
    })

  abbrev pub not_planned : String → EvidenceBundle → RemediationPlanResult
  not_planned id evidence = record {
    workflow_id_ = id;
    planned = false;
    reason = "no certified runbook matched the incident evidence";
    runbook_id = none;
    plan_hash = none;
    confidence = 0;
    evidence_ids = evidence.evidence_ids;
    workflow_version = evidence.workflow_version;
  }

  abbrev pub workflow_plan :
      RemediationRequest → String → RemediationPlan activities.incidents → RemediationWorkflowPlan
  workflow_plan request id plan = record {
    workflow_id = id;
    service = request.service;
    environment = request.environment;
    runbook_id = plan.runbook_id;
    blast_radius = request.blast_radius;
    evidence_ids = plan.evidence_ids;
    confidence = activities.millionths plan.confidence;
  }

  -- `plan_remediation` after the planner, by its answer: the two transitions of a plan.
  unfoldable pub persist_plan :
      RemediationRequest
      → EvidenceBundle
      → String
      → String
      → Option (RemediationPlan activities.incidents)
      → Step RemediationPlanResult
  unfolding advance
  persist_plan request evidence occurred_at id none = give (not_planned id evidence)
  persist_plan request evidence occurred_at id (some plan) = do
    let hash = plan_hash activities.control (workflow_plan request id plan)
    time ← step_time occurred_at
    planned_ ←
        advance request "planned" "prepare-remediation" (some received)
          (some evidence.workflow_version) planned time (some hash)
          (payload (workflow_plan request id plan) (
            ("reason", text plan.reason)
            ∷ ("runbook_id", text plan.runbook_id)
            ∷ ("service", text request.service)
            ∷ []))
          false
    waiting ←
        advance request "awaiting-approval" "await-human-approval" (some planned)
          (some planned_.workflow_version) waiting_approval time (some hash)
          (("plan_hash", text hash) ∷ []) false
    give (record {
      workflow_id_ = id;
      planned = true;
      reason = plan.reason;
      runbook_id = some plan.runbook_id;
      plan_hash = some hash;
      confidence = activities.millionths plan.confidence;
      evidence_ids = plan.evidence_ids;
      workflow_version = waiting.workflow_version;
    })

  unfoldable pub plan_remediation :
      RemediationRequest → Option EvidenceBundle → String → Step RemediationPlanResult
  plan_remediation request none occurred_at = do
    require_enabled
    lift invalid_request (validate request)
    refuse no_evidence
  plan_remediation request (some evidence) occurred_at = do
    require_enabled
    lift invalid_request (validate request)
    events ← lift bad_evidence (events_of activities.clock evidence.evidence)
    id ← lift invalid_request (workflow_id request)
    persist_plan request evidence occurred_at id (
        plan_from_incident activities.incidents
          (analyze_incident activities.incidents events request.service))

  abbrev pub approval_of : RemediationApprovalSignal → Approval
  approval_of signal = record {
    workflow_id = signal.workflow_id_;
    approver = signal.approver;
    plan_hash = signal.plan_hash;
    issued_at = signal.issued_at;
    signature = signal.signature;
  }

  abbrev pub verification : Bool → String → ApprovalVerification
  verification true approver = record {
    verified = true;
    reason = "approval signature verified";
    approver = approver;
  }
  verification false approver = record {
    verified = false;
    reason = "approval is invalid, stale, expired, or bound to another plan";
    approver = "";
  }

  -- By the plan hash, where the empty text is none.
  abbrev pub verify_for :
      RemediationRequest → RemediationApprovalSignal → Option String → Step ApprovalVerification
  verify_for request signal none = give (record {
    verified = false;
    reason = "there is no plan hash to approve against";
    approver = "";
  })
  verify_for request signal (some hash) = do
    id ← lift invalid_request (workflow_id request)
    give (
        verification
          (Approvals.verify_approval activities.control.approvals (approval_of signal) id hash
            activities.approval_secret (pos 900) none activities.time)
          signal.approver)

  unfoldable pub verify_approval :
      RemediationRequest
      → RemediationPlanResult
      → RemediationApprovalSignal
      → Step ApprovalVerification
  verify_approval request plan signal = do
    require_enabled
    verify_for request signal (if is_missing plan.plan_hash then none else plan.plan_hash)

  abbrev pub denied_action : String → ℕ → ActionOutcome
  denied_action reason version = record {
    status = "denied";
    reason = reason;
    execution_ref = none;
    verified = false;
    rollback_ref = none;
    error = none;
    from_status = "waiting_approval";
    workflow_version = version;
  }

  -- `_action_request`; the other fields have their defaults.
  abbrev pub action_request : RemediationRequest → String → ActionRequest
  action_request request runbook_id = record {
    service = request.service;
    environment = request.environment;
    runbook_id = runbook_id;
    blast_radius = request.blast_radius;
    approval_token = none;
    error_budget_remaining = pos 1;
  }

  abbrev pub action_outcome : LoopAnswer → ℕ → ActionOutcome
  action_outcome result version = record {
    status = result.status;
    reason = result.reason;
    execution_ref = result.execution_ref;
    verified = result.verified;
    rollback_ref = result.rollback_ref;
    error = result.error;
    from_status = "verifying";
    workflow_version = version;
  }

  -- `execute_action` after its two guards.
  unfoldable pub run_action :
      RemediationRequest → RemediationPlanResult → String → String → Step ActionOutcome
  unfolding advance autonomy
  run_action request plan runbook_id occurred_at = do
    time ← step_time occurred_at
    executing_ ←
        advance request "executing" "execute-remediation" (some waiting_approval)
          (some plan.workflow_version) executing time plan.plan_hash
          (("blast_radius", integer request.blast_radius) ∷ ("runbook_id", text runbook_id) ∷ [])
          true
    policy ← or_raise no_policy (autonomy request activities.autonomy_policies)
    result ← lift loop_failed (activities.control_loop policy (action_request request runbook_id))
    verifying_ ←
        advance request "verifying" "verify-remediation" (some executing)
          (some executing_.workflow_version) verifying time plan.plan_hash
          (("execution_status", text result.status)
            ∷ ("rollback_ref", optional_text result.rollback_ref)
            ∷ ("verified", boolean result.verified)
            ∷ [])
          true
    give (action_outcome result verifying_.workflow_version)

  abbrev pub execute_by :
      RemediationRequest
      → RemediationPlanResult
      → Option String
      → Bool
      → String
      → Step ActionOutcome
  execute_by request plan none approval_verified occurred_at =
      give (denied_action "there is no planned runbook to execute" plan.workflow_version)
  execute_by request plan (some runbook_id) approval_verified occurred_at =
      if not approval_verified
      then give (
          denied_action "verified human approval is required before any mutation"
            plan.workflow_version)
      else run_action request plan runbook_id occurred_at

  unfoldable pub execute_action :
      RemediationRequest → Option RemediationPlanResult → Bool → String → Step ActionOutcome
  execute_action request none approval_verified occurred_at = do
    require_enabled
    give (denied_action "there is no planned runbook to execute" 0)
  execute_action request (some plan) approval_verified occurred_at = do
    require_enabled
    execute_by request plan (if is_missing plan.runbook_id then none else plan.runbook_id)
        approval_verified occurred_at

  abbrev pub outcome_attributes : String → ActionOutcome → String → Dict Json
  outcome_attributes status outcome approver =
      ("approver", text approver)
      ∷ ("error", optional_text outcome.error)
      ∷ ("execution_ref", optional_text outcome.execution_ref)
      ∷ ("reason", text outcome.reason)
      ∷ ("rollback_ref", optional_text outcome.rollback_ref)
      ∷ ("status", text status)
      ∷ ("verified", boolean outcome.verified)
      ∷ []

  unfoldable pub record_outcome :
      RemediationRequest
      → Option RemediationPlanResult
      → ActionOutcome
      → (approver occurred_at : String) → Step RemediationOutcome
  unfolding advance
  record_outcome request plan outcome approver occurred_at = do
    require_enabled
    let status = terminal_status_for_action outcome
    from ← or_raise unknown_status (status_of outcome.from_status)
    to ← or_raise unknown_status (lookup status terminal_workflow_status)
    time ← step_time occurred_at
    result ←
        advance request "outcome" "finish-remediation" (some from) (some outcome.workflow_version)
          to time (plan_hash_of plan) (outcome_attributes status outcome approver) true
    id ← lift invalid_request (workflow_id request)
    give (record {
      workflow_id_ = id;
      status = status;
      reason = outcome.reason;
      plan_hash = plan_hash_of plan;
      approver = approver;
      execution_ref = outcome.execution_ref;
      rollback_ref = outcome.rollback_ref;
      audit_event_hash = result.audit_event_hash;
      mutation_attempted = is_some_ref outcome.execution_ref;
    })
