-- ===== src/Orchestration/Activities/Valid.antt =====
-- The runs of the activities of orchestration/control_plane_activities.py, and whether the validation of the
-- lifecycle refuses an event that they send.
mod Tests
use Prim.Native.String.{◌++◌}
use engineering_intelligence.Base.{
  ℕ, ◌≤◌, ◌≡◌, refl, sym, ap, ◌∙◌, inl, inr, String, Bool, true, false, not, Option, none, some,
  List, [], ◌∷◌, str_eq, map, if◌then◌else◌, Bool-cases,
}
use engineering_intelligence.Base.Dict.{Dict, lookup}
use engineering_intelligence.Base.Result.{Result, ok, raised}
use engineering_intelligence.Base.Stateful.{
  Call, continue, ◌>>=◌, ◌>>◌, give, refuse_if, both_returned,
}
use engineering_intelligence.Resilience.Scope.{aware}
use engineering_intelligence.State.Models.{
  WorkflowStatus, received, planned, waiting_approval, executing, verifying,
}
use engineering_intelligence.State.Lifecycle
use engineering_intelligence.State.Lifecycle.{WorkflowLifecycleEvent, when_set, is_plan_hash}
use engineering_intelligence.State.Payload.{Json, IsLossless, text, texts, status_of}
use engineering_intelligence.State.Audit.{AuditEvent, Log}
use engineering_intelligence.State.Store.{
  Tables, StoreError, WorkflowTransitionResult, invalid, version_conflict, integrity, unreadable,
  apply_workflow_event,
}
use engineering_intelligence.State.Store.Refusals.{
  is_invalid, gives_invalid, apply_valid, IsNumbered, apply-IsNumbered,
}
use engineering_intelligence.ControlPlane.Remediation.{plan_hash}
use engineering_intelligence.Intelligence.Incidents.{analyze_incident}
use engineering_intelligence.Remediation.Planner.{RemediationPlan, plan_from_incident}
use engineering_intelligence.Orchestration.RemediationWorkflow.{
  RemediationRequest, RequestError, EvidenceBundle, RemediationPlanResult, ActionOutcome,
  is_missing, validate, workflow_id, remediation_workflows_enabled, terminal_status_for_action,
}
use engineering_intelligence.Orchestration.Activities.{
  Sink, Stores, BridgeError, store_error, export_incomplete, unverifiable,
  WorkflowLifecycleActivityResult, with_hash, after_export, after_state, audit_event,
  persist_workflow_lifecycle,
}
use engineering_intelligence.Orchestration.Activities.Bridge.{after_state-returned}
use engineering_intelligence.Orchestration.Activities.Evidence.{events_of}
use engineering_intelligence.Orchestration.Activities.Steps.{
  Configuration, StepError, disabled, no_step_time, no_evidence, no_policy, unknown_status,
  invalid_request, bad_evidence, provider_failed, loop_failed, not_persisted, Step, lift, or_raise,
  terminal_workflow_status, plan_hash_of, require_enabled, step_time, autonomy, step_event, persist,
  advance, workflow_plan, action_request, collect_evidence, persist_plan, plan_remediation,
  execute_by, run_action, execute_action, record_outcome,
}
use engineering_intelligence.Orchestration.Activities.Refused.{
  is_refusal, is_refused, by_lift, by_option, by_some, by_guard, by_answer, lifted, paired,
  after_export_fine,
}
use engineering_intelligence.Orchestration.Activities.Sends.{
  IsOutcome, Allowed, IsOutcome-Allowed, IsSound, evidence-IsSound, planned_step-IsSound,
  waiting_step-IsSound, executing_step-IsSound, verifying_step-IsSound, outcome_step-IsSound,
  step_event-IsValid,
}

module _ (activities : Configuration) where
  after_state_fine :
      (event : WorkflowLifecycleEvent) (log : Log)
      (state : Result StoreError WorkflowTransitionResult × Tables)
      → gives_invalid state.0 ≡ false
      → let done = after_state activities.control.store activities.sink event log state in
        is_refused (lift not_persisted done.0 done.1).0 ≡ false
  after_state_fine event log (raised e, tables) h = h
  after_state_fine event log (ok transition, tables) h =
      after_export_fine event transition tables
        (activities.sink (audit_event activities.control.store event transition.record_) log)

  persist_fine :
      (event : WorkflowLifecycleEvent) (s : Stores)
      → Lifecycle.validate activities.control.store.fromisoformat event ≡ ok tt
      → is_refused (persist activities event s).0 ≡ false
  unfolding persist_workflow_lifecycle
  persist_fine event s valid =
      after_state_fine event s.log (apply_workflow_event activities.control.store event s.tables)
        (apply_valid activities.control.store event s.tables valid)

  -- What the configuration and its libraries give: JSON that is read as it was written, digests that make
  -- plan hashes, and an actor that is an identifier.
  pub record IsConfigured : Type 0 where
    pub lossless : IsLossless activities.control.store
    pub hashed : (s : String) → is_plan_hash ("sha256:" ++ activities.control.store.sha256 s) ≡ true
    pub actor : Lifecycle.is_identifier activities.actor ≡ true

  -- The hash, where there is one, is well formed.
  abbrev pub HasPlanHash : Option String → Type 0
  HasPlanHash hash = when_set (λ h. not (is_plan_hash h)) hash ≡ false

  persist-IsNumbered :
      (configured : IsConfigured) (event : WorkflowLifecycleEvent) (s : Stores)
      (result : WorkflowLifecycleActivityResult) (after : Stores)
      → IsNumbered activities.control.store s.tables
      → persist activities event s ≡ (ok result, after)
      → (1 ≤ result.workflow_version) × IsNumbered activities.control.store after.tables
  unfolding persist_workflow_lifecycle
  persist-IsNumbered configured event s result after numbered h =
      let store = activities.control.store in
      let done =
        after_state store activities.sink event s.log (apply_workflow_event store event s.tables) in
      let (answer, same) = lifted not_persisted done.0 done.1 h in
      let (transition, final, state, exported, hash, version) =
        after_state-returned store activities.sink event s.log
          (apply_workflow_event store event s.tables) result after (paired done answer same) in
      let (from_one, kept) =
        apply-IsNumbered store configured.lossless event s.tables transition after.tables numbered
          state in
      (rw version from_one, kept)

  module _ (configured : IsConfigured) (request : RemediationRequest) (occurred_at : String)
      (instant : ℕ)
      (timed : activities.control.store.fromisoformat (activities.strip occurred_at)
        ≡ some (aware instant)) where
    advance_fine :
        {step action : String} {from : Option WorkflowStatus} {expected : Option ℕ}
        {to : WorkflowStatus} (hash : Option String) (attributes : Dict Json) (consequential : Bool)
        (s : Stores)
        → IsSound step action from expected to
        → HasPlanHash hash
        → is_refused
            (advance activities request step action from expected to
              (activities.strip occurred_at)
              hash
              attributes
              consequential
              s).0
          ≡ false
    unfolding advance
    advance_fine {step} {action} {from} {expected} {to} hash attributes consequential s sound
          well_formed =
        by_lift _ s invalid_request (workflow_id request) (λ e. refl)
          (λ id known.
            persist_fine
              (step_event activities request id step action from expected to
                (activities.strip occurred_at) hash attributes consequential)
              s
              (step_event-IsValid activities request id (activities.strip occurred_at) hash
                attributes consequential activities.control.store.fromisoformat instant sound known
                configured.actor well_formed timed))

    -- What follows a step that is sound.
    by_advance :
        {B : Type 0} {step action : String} {from : Option WorkflowStatus} {expected : Option ℕ}
        {to : WorkflowStatus} (rest : WorkflowLifecycleActivityResult → Step B)
        (hash : Option String) (attributes : Dict Json) (consequential : Bool) (s : Stores)
        → IsSound step action from expected to
        → HasPlanHash hash
        → IsNumbered activities.control.store s.tables
        → ((result : WorkflowLifecycleActivityResult) (after : Stores)
            → 1 ≤ result.workflow_version
            → IsNumbered activities.control.store after.tables
            → is_refused (rest result after).0 ≡ false)
        → is_refused
            (continue
              (advance activities request step action from expected to
                (activities.strip occurred_at)
                hash
                attributes
                consequential
                s)
              rest).0
          ≡ false
    unfolding advance
    by_advance {B} {step} {action} {from} {expected} {to} rest hash attributes consequential s sound
          well_formed numbered goes =
        by_answer
          (advance activities request step action from expected to (activities.strip occurred_at)
            hash attributes consequential s)
          rest (advance_fine hash attributes consequential s sound well_formed)
          (λ result after h.
            let (id, s', known, sent) =
              both_returned (lift invalid_request (workflow_id request) s) _ h in
            let (is, same) = lifted invalid_request (workflow_id request) s known in
            let (from_one, kept) =
              persist-IsNumbered configured _ s' result after (rw (sym same) numbered) sent in
            goes result after from_one kept)

    by_time :
        {B : Type 0} (rest : String → Step B) (s : Stores)
        → is_refused (rest (activities.strip occurred_at) s).0 ≡ false
        → is_refused (continue (step_time activities occurred_at s) rest).0 ≡ false
    by_time rest s goes = elim (Bool-cases (str_eq (activities.strip occurred_at) "")) [
      | inl blank ↦ rw blank refl
      | inr given ↦ rw given goes
    ]

    collect_evidence_fine :
        (s : Stores)
        → IsNumbered activities.control.store s.tables
        → is_refused (collect_evidence activities request occurred_at s).0 ≡ false
    unfolding collect_evidence
    collect_evidence_fine s numbered =
        by_guard (not (remediation_workflows_enabled activities.environ)) disabled _ s refl (
          by_lift _ s invalid_request (validate request) (λ e. refl)
            (λ _ _.
              by_lift _ s provider_failed
                (activities.evidence_provider request.incident_id request.service
                  request.environment)
                (λ e. refl)
                (λ events _. by_time _ s (
                  by_advance _ none
                    (("evidence_ids", texts (map (λ e. e.id) events))
                      ∷ ("incident_id", text request.incident_id)
                      ∷ [])
                    false s evidence-IsSound refl numbered
                    (λ result after _ _.
                      by_lift _ after invalid_request (workflow_id request) (λ e. refl)
                        (λ id _. refl))))))

    persist_plan_fine :
        (evidence : EvidenceBundle) (id : String)
        (plan : Option (RemediationPlan activities.incidents)) (s : Stores)
        → 1 ≤ evidence.workflow_version
        → IsNumbered activities.control.store s.tables
        → is_refused (persist_plan activities request evidence occurred_at id plan s).0 ≡ false
    unfolding persist_plan plan_hash
    persist_plan_fine evidence id none s from_one numbered = refl
    persist_plan_fine evidence id (some plan) s from_one numbered =
        let hash = plan_hash activities.control (workflow_plan activities request id plan) in
        let well_formed : HasPlanHash (some hash) = rw (configured.hashed _) refl in
        by_time _ s (
          by_advance _ (some hash) _ false s
            (planned_step-IsSound evidence.workflow_version from_one) well_formed numbered
            (λ planned_ after version kept.
              by_advance _ (some hash) _ false after
                (waiting_step-IsSound planned_.workflow_version version) well_formed kept
                (λ waiting last _ _. refl)))

    plan_remediation_fine :
        (evidence : EvidenceBundle) (s : Stores)
        → 1 ≤ evidence.workflow_version
        → IsNumbered activities.control.store s.tables
        → is_refused (plan_remediation activities request (some evidence) occurred_at s).0 ≡ false
    unfolding plan_remediation
    plan_remediation_fine evidence s from_one numbered =
        by_guard (not (remediation_workflows_enabled activities.environ)) disabled _ s refl (
          by_lift _ s invalid_request (validate request) (λ e. refl)
            (λ _ _.
              by_lift _ s bad_evidence (events_of activities.clock evidence.evidence) (λ e. refl)
                (λ events _.
                  by_lift _ s invalid_request (workflow_id request) (λ e. refl)
                    (λ id _.
                      persist_plan_fine evidence id
                        (plan_from_incident activities.incidents
                          (analyze_incident activities.incidents events request.service))
                        s from_one numbered))))

    run_action_fine :
        (plan : RemediationPlanResult) (runbook_id : String) (s : Stores)
        → HasPlanHash plan.plan_hash
        → 1 ≤ plan.workflow_version
        → IsNumbered activities.control.store s.tables
        → is_refused (run_action activities request plan runbook_id occurred_at s).0 ≡ false
    unfolding run_action
    run_action_fine plan runbook_id s well_formed from_one numbered = by_time _ s (
        by_advance _ plan.plan_hash _ true s (executing_step-IsSound plan.workflow_version from_one)
          well_formed numbered
          (λ executing_ after version kept.
            by_option _ after no_policy (autonomy activities request activities.autonomy_policies)
              refl
              (λ policy.
                by_lift _ after loop_failed
                  (activities.control_loop policy (action_request activities request runbook_id))
                  (λ e. refl)
                  (λ result _.
                    by_advance _ plan.plan_hash _ true after
                      (verifying_step-IsSound executing_.workflow_version version) well_formed kept
                      (λ verifying_ last _ _. refl)))))

    execute_by_fine :
        (plan : RemediationPlanResult) (runbook_id : Option String) (approval_verified : Bool)
        (s : Stores)
        → HasPlanHash plan.plan_hash
        → 1 ≤ plan.workflow_version
        → IsNumbered activities.control.store s.tables
        → is_refused
            (execute_by activities request plan runbook_id approval_verified occurred_at s).0
          ≡ false
    execute_by_fine plan none approval_verified s well_formed from_one numbered = refl
    execute_by_fine plan (some runbook_id) false s well_formed from_one numbered = refl
    execute_by_fine plan (some runbook_id) true s well_formed from_one numbered =
        run_action_fine plan runbook_id s well_formed from_one numbered

    execute_action_fine :
        (plan : RemediationPlanResult) (approval_verified : Bool) (s : Stores)
        → HasPlanHash plan.plan_hash
        → 1 ≤ plan.workflow_version
        → IsNumbered activities.control.store s.tables
        → is_refused
            (execute_action activities request (some plan) approval_verified occurred_at s).0
          ≡ false
    unfolding execute_action
    execute_action_fine plan approval_verified s well_formed from_one numbered =
        by_guard (not (remediation_workflows_enabled activities.environ)) disabled _ s refl (
          execute_by_fine plan (if is_missing plan.runbook_id then none else plan.runbook_id)
            approval_verified s well_formed from_one numbered)

    record_outcome_fine :
        (plan : Option RemediationPlanResult) (outcome : ActionOutcome) (approver : String)
        (s : Stores)
        → HasPlanHash (plan_hash_of plan)
        → IsOutcome outcome
        → 1 ≤ outcome.workflow_version
        → IsNumbered activities.control.store s.tables
        → is_refused (record_outcome activities request plan outcome approver occurred_at s).0
          ≡ false
    unfolding record_outcome
    record_outcome_fine plan outcome approver s well_formed recorded from_one numbered =
        let ends = IsOutcome-Allowed outcome recorded in
        by_guard (not (remediation_workflows_enabled activities.environ)) disabled _ s refl (
          by_some _ s unknown_status (status_of outcome.from_status) ends.from ends.source (
            by_some _ s unknown_status
              (lookup (terminal_status_for_action outcome) terminal_workflow_status) ends.to
              ends.target
              (by_time _ s (
                by_advance _ (plan_hash_of plan) _ true s
                  (outcome_step-IsSound outcome.workflow_version from_one ends.from ends.to
                    ends.allowed)
                  well_formed numbered
                  (λ result after _ _.
                    by_lift _ after invalid_request (workflow_id request) (λ e. refl)
                      (λ id _. refl))))))

    -- No event that an activity sends is refused by the validation of the lifecycle: its identifiers stay
    -- within their 192 characters, its transition is allowed and its versions are positive. No outcome that
    -- the workflow records has a status that the lifecycle does not name. The actor is an identifier, digests
    -- make well-formed hashes, JSON is read as it was written, the time has a zone, receipts hold records of
    -- versions from 1, and what is handed on from the steps before has a version from 1, a well-formed plan
    -- hash, if any, and an outcome of the action or of a decision to stop.
    pub activities_send_valid_events :
        (s : Stores) (evidence : EvidenceBundle) (plan : RemediationPlanResult)
        (approval_verified : Bool) (outcome : ActionOutcome) (approver : String)
        → IsNumbered activities.control.store s.tables
        → 1 ≤ evidence.workflow_version
        → HasPlanHash plan.plan_hash
        → 1 ≤ plan.workflow_version
        → IsOutcome outcome
        → 1 ≤ outcome.workflow_version
        → (is_refused (collect_evidence activities request occurred_at s).0 ≡ false)
          × (is_refused (plan_remediation activities request (some evidence) occurred_at s).0
              ≡ false)
          × (is_refused
                (execute_action activities request (some plan) approval_verified occurred_at s).0
              ≡ false)
          × (is_refused
                (record_outcome activities request (some plan) outcome approver occurred_at s).0
              ≡ false)
    activities_send_valid_events s evidence plan approval_verified outcome approver numbered
          collected hashed planned_ recorded ended =
        (
          collect_evidence_fine s numbered,
          plan_remediation_fine evidence s collected numbered,
          execute_action_fine plan approval_verified s hashed planned_ numbered,
          record_outcome_fine (some plan) outcome approver s hashed recorded ended numbered,
        )
