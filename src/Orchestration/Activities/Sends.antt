-- ===== src/Orchestration/Activities/Sends.antt =====
-- The events that the activities of orchestration/control_plane_activities.py send, against the lifecycle's
-- validation: identifiers, versions and transitions.
use engineering_intelligence.Base.{
  ℕ, ◌≤◌, String, Bool, true, false, not, Option, none, some, ◌≡◌, refl, ◌⊎◌, inl, inr, str_eq, ltb,
  arith, Bool-cases,
}
use engineering_intelligence.Base.Dict.{Dict, lookup}
use engineering_intelligence.Base.Result.{ok}
use engineering_intelligence.Resilience.Scope.{Stamp, aware}
use engineering_intelligence.State.Models.{
  WorkflowStatus, received, planned, waiting_approval, executing, verifying, succeeded, rolled_back,
  escalated, failed,
}
use engineering_intelligence.State.Lifecycle
use engineering_intelligence.State.Lifecycle.{
  WorkflowLifecycleEvent, allowed_transitions, status_in, when_set, check_identifiers,
  check_version, check_timestamp, check_attributes, is_plan_hash, in_range, is_alphanumeric, every,
  is_identifier_char,
}
use engineering_intelligence.State.Payload.{Json, status_of}
use engineering_intelligence.Orchestration.RemediationWorkflow.{
  RemediationRequest, ActionOutcome, workflow_id, terminal_status, or_failed,
  terminal_status_for_action,
}
use engineering_intelligence.Orchestration.RemediationWorkflow.{StepDecision}
use engineering_intelligence.Orchestration.RemediationWorkflow.Run.{World, stopped}
use engineering_intelligence.Orchestration.RemediationWorkflow.Stages.{
  Stops, unplanned, unapproved, refused,
}
use engineering_intelligence.Orchestration.RemediationWorkflow.Identifiers.{
  IsStep, workflow_identifiers,
}
use engineering_intelligence.Orchestration.Activities.Steps.{
  Configuration, step_event, terminal_workflow_status,
}

-- The outcomes that the workflow records: a decision to stop, after the plan or later, or the answer of the
-- action.
pub data IsOutcome (outcome : ActionOutcome) : Type 0 where
  stopped_received :
      outcome.from_status ≡ "received" → outcome.status ≡ "escalate" → IsOutcome outcome
  stopped_waiting :
      outcome.from_status ≡ "waiting_approval"
      → (outcome.status ≡ "escalate") ⊎ (outcome.status ≡ "denied")
      → IsOutcome outcome
  acted : outcome.from_status ≡ "verifying" → IsOutcome outcome

pub record Allowed (outcome : ActionOutcome) : Type 0 where
  pub from : WorkflowStatus
  pub to : WorkflowStatus
  pub source : status_of outcome.from_status ≡ some from
  pub target : lookup (terminal_status_for_action outcome) terminal_workflow_status ≡ some to
  pub allowed : status_in to (allowed_transitions (some from)) ≡ true

ends_verifying :
    (status : String)
    → (to : WorkflowStatus) × (lookup
          (or_failed (lookup status terminal_status))
          terminal_workflow_status
        ≡ some to)
      × (status_in to (allowed_transitions (some verifying)) ≡ true)
ends_verifying status = elim (Bool-cases (str_eq "succeeded" status)) [
  | inl a ↦ (succeeded, rw a refl, refl)
  | inr a ↦ elim (Bool-cases (str_eq "rolled_back" status)) [
    | inl b ↦ (rolled_back, rw (a, b) refl, refl)
    | inr b ↦ elim (Bool-cases (str_eq "escalate" status)) [
      | inl c ↦ (escalated, rw (a, b, c) refl, refl)
      | inr c ↦ elim (Bool-cases (str_eq "escalated" status)) [
        | inl d ↦ (escalated, rw (a, b, c, d) refl, refl)
        | inr d ↦ elim (Bool-cases (str_eq "denied" status)) [
          | inl e ↦ (failed, rw (a, b, c, d, e) refl, refl)
          | inr e ↦ (failed, rw (a, b, c, d, e) refl, refl)
        ]
      ]
    ]
  ]
]

-- What the workflow records names its source and its end, and the lifecycle allows the transition.
pub IsOutcome-Allowed : (outcome : ActionOutcome) → IsOutcome outcome → Allowed outcome
unfolding terminal_status_for_action status_of
IsOutcome-Allowed outcome (stopped_received from status) = record {
  from = received;
  to = escalated;
  source = rw from refl;
  target = rw status refl;
  allowed = refl;
}
IsOutcome-Allowed outcome (stopped_waiting from (inl status)) = record {
  from = waiting_approval;
  to = escalated;
  source = rw from refl;
  target = rw status refl;
  allowed = refl;
}
IsOutcome-Allowed outcome (stopped_waiting from (inr status)) = record {
  from = waiting_approval;
  to = failed;
  source = rw from refl;
  target = rw status refl;
  allowed = refl;
}
IsOutcome-Allowed outcome (acted from) =
    let (to, target, allowed) = ends_verifying outcome.status in
    record { from = verifying; to = to; source = rw from refl; target = target; allowed = allowed }

-- Every decision to stop that the workflow takes gives such an outcome.
pub Stops-IsOutcome :
    (world : World) (request : RemediationRequest) (from : String) (decision : StepDecision)
    (version : ℕ)
    → Stops from decision
    → IsOutcome (stopped world request decision from version)
Stops-IsOutcome world request from decision version (unplanned at status) =
    stopped_received at status
Stops-IsOutcome world request from decision version (unapproved at status) =
    stopped_waiting at (inl status)
Stops-IsOutcome world request from decision version (refused at status) =
    stopped_waiting at (inr status)

-- What the validation asks of a step of the workflow.
pub record IsSound (step action : String) (from : Option WorkflowStatus) (expected : Option ℕ)
    (to : WorkflowStatus) : Type 0 where
  pub named : IsStep step
  pub titled : Lifecycle.is_identifier action ≡ true
  pub versioned : check_version from to expected ≡ ok tt
  pub positive : when_set (λ version. ltb version 1) expected ≡ false
  pub allowed : status_in to (allowed_transitions from) ≡ true

positive_version : (version : ℕ) → 1 ≤ version → ltb version 1 ≡ false
positive_version version h = ground arith

-- The steps of the activities, at any version from 1.
pub evidence-IsSound : IsSound "evidence" "collect-remediation-evidence" none none received
unfolding Lifecycle.is_identifier is_identifier_char every is_alphanumeric in_range check_version
evidence-IsSound = record {
  named = record { characters = refl; size = omega arith };
  titled = refl;
  versioned = refl;
  positive = refl;
  allowed = refl;
}

module _ (version : ℕ) (from_one : 1 ≤ version) where
  pub planned_step-IsSound :
      IsSound "planned" "prepare-remediation" (some received) (some version) planned
  unfolding Lifecycle.is_identifier is_identifier_char every is_alphanumeric in_range check_version
  planned_step-IsSound = record {
    named = record { characters = refl; size = omega arith };
    titled = refl;
    versioned = refl;
    positive = positive_version version from_one;
    allowed = refl;
  }

  pub waiting_step-IsSound :
      IsSound "awaiting-approval" "await-human-approval"
        (some planned)
        (some version)
        waiting_approval
  unfolding Lifecycle.is_identifier is_identifier_char every is_alphanumeric in_range check_version
  waiting_step-IsSound = record {
    named = record { characters = refl; size = omega arith };
    titled = refl;
    versioned = refl;
    positive = positive_version version from_one;
    allowed = refl;
  }

  pub executing_step-IsSound :
      IsSound "executing" "execute-remediation" (some waiting_approval) (some version) executing
  unfolding Lifecycle.is_identifier is_identifier_char every is_alphanumeric in_range check_version
  executing_step-IsSound = record {
    named = record { characters = refl; size = omega arith };
    titled = refl;
    versioned = refl;
    positive = positive_version version from_one;
    allowed = refl;
  }

  pub verifying_step-IsSound :
      IsSound "verifying" "verify-remediation" (some executing) (some version) verifying
  unfolding Lifecycle.is_identifier is_identifier_char every is_alphanumeric in_range check_version
  verifying_step-IsSound = record {
    named = record { characters = refl; size = omega arith };
    titled = refl;
    versioned = refl;
    positive = positive_version version from_one;
    allowed = refl;
  }

  pub outcome_step-IsSound :
      (from to : WorkflowStatus)
      → status_in to (allowed_transitions (some from)) ≡ true
      → IsSound "outcome" "finish-remediation" (some from) (some version) to
  unfolding Lifecycle.is_identifier is_identifier_char every is_alphanumeric in_range check_version
  outcome_step-IsSound from to allowed = record {
    named = record { characters = refl; size = omega arith };
    titled = refl;
    versioned = refl;
    positive = positive_version version from_one;
    allowed = allowed;
  }

kind-IsIdentifier : Lifecycle.is_identifier "remediation" ≡ true
unfolding Lifecycle.is_identifier is_identifier_char every is_alphanumeric in_range
kind-IsIdentifier = refl

-- The event of a sound step for a valid request passes the validation of the lifecycle.
pub step_event-IsValid :
    (activities : Configuration) (request : RemediationRequest) (id : String) {step action : String}
    {from : Option WorkflowStatus} {expected : Option ℕ} {to : WorkflowStatus}
    (occurred_at : String) (hash : Option String) (attributes : Dict Json) (consequential : Bool)
    (fromisoformat : String → Option Stamp) (instant : ℕ)
    → IsSound step action from expected to
    → workflow_id request ≡ ok id
    → Lifecycle.is_identifier activities.actor ≡ true
    → when_set (λ h. not (is_plan_hash h)) hash ≡ false
    → fromisoformat occurred_at ≡ some (aware instant)
    → Lifecycle.validate fromisoformat (
        step_event activities request id step action from expected to occurred_at hash attributes
          consequential)
      ≡ ok tt
unfolding Lifecycle.validate check_identifiers check_timestamp check_attributes
step_event-IsValid activities request id {step} {action} {from} {expected} {to} occurred_at hash
      attributes consequential fromisoformat instant sound known actor hashed timed =
    let (texts, whole, continued) = workflow_identifiers request id step known sound.named in
    rw
      (
        continued, whole, texts.tenant_id, texts.service, texts.environment, kind-IsIdentifier,
        texts.correlation_id, actor, sound.titled, hashed, sound.positive, sound.versioned,
        sound.allowed, timed,
      )
      refl
