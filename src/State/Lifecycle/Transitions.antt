-- ===== src/State/Lifecycle/Transitions.antt =====
-- The shape of the transition table of state/lifecycle.py, and what an applied event keeps.
use engineering_intelligence.Base.{
  ℕ, ◌+◌, ◌≤◌, ◌<◌, ◌≡◌, refl, sym, ap, ◌∙◌, ◌⊎◌, inl, inr, String, Bool, true, false, Option, none,
  some, List, [], ◌∷◌, ◌++◌, arith, eq_iff, str_eq, length,
}
use engineering_intelligence.Base.Result.{ok, both_return}
use engineering_intelligence.Resilience.Scope.{Stamp}
use engineering_intelligence.State.Models.{
  WorkflowStatus, WorkflowRecord, received, diagnosing, planned, waiting_approval, executing,
  verifying, succeeded, rolled_back, escalated, failed, cancelled, same_status, same_status-eq,
}
use engineering_intelligence.State.Lifecycle.{
  WorkflowLifecycleEvent, allowed_transitions, status_in, validate, apply_to, apply_from, advanced,
  created,
}

-- How far a workflow is.
abbrev pub stage : Option WorkflowStatus → ℕ
stage none = 0
stage (some received) = 1
stage (some diagnosing) = 2
stage (some planned) = 3
stage (some waiting_approval) = 4
stage (some executing) = 5
stage (some verifying) = 6
stage (some succeeded) = 7
stage (some rolled_back) = 7
stage (some escalated) = 7
stage (some failed) = 7
stage (some cancelled) = 7

-- Every transition of the table follows on the one before.
abbrev pub Chain : Option WorkflowStatus → List WorkflowStatus → Type 0
Chain s [] = Unit
Chain s (t ∷ ts) = (status_in t (allowed_transitions s) ≡ true) × Chain (some t) ts

transition-stage :
    (s : Option WorkflowStatus) (t : WorkflowStatus)
    → status_in t (allowed_transitions s) ≡ true
    → stage s < stage (some t)
transition-stage none t h = ground arith
transition-stage (some received) t h = ground arith
transition-stage (some diagnosing) t h = ground arith
transition-stage (some planned) t h = ground arith
transition-stage (some waiting_approval) t h = ground arith
transition-stage (some executing) t h = ground arith
transition-stage (some verifying) t h = ground arith
transition-stage (some _) t h = cc

stage_bound : (s : WorkflowStatus) → stage (some s) ≤ 7
stage_bound received = omega arith
stage_bound _ = omega arith

Chain-stage :
    (s : Option WorkflowStatus) (ts : List WorkflowStatus)
    → Chain s ts
    → stage s ≤ 7
    → stage s + length ts ≤ 7
Chain-stage s [] h top = omega arith
Chain-stage s (t ∷ ts) h top =
    omega (arith, transition-stage s t h.0, Chain-stage (some t) ts h.1 (stage_bound t))

-- A workflow, however it moves through the table from its creation, takes at most seven transitions.
pub Chain-bounded : (ts : List WorkflowStatus) → Chain none ts → length ts ≤ 7
Chain-bounded ts h = omega (arith, Chain-stage none ts h (omega arith))

-- The status occurs.
abbrev pub Passes : WorkflowStatus → List WorkflowStatus → Type 0
Passes s [] = ⊥
Passes s (t ∷ ts) = (t ≡ s) ⊎ Passes s ts

abbrev is_early : Option WorkflowStatus → Bool
is_early none = true
is_early (some received) = true
is_early (some diagnosing) = true
is_early (some _) = false

early_transition :
    (s : Option WorkflowStatus) (t : WorkflowStatus)
    → is_early s ≡ true
    → status_in t (allowed_transitions s) ≡ true
    → (t ≡ planned) ⊎ ((is_early (some t) ≡ true) ⊎ (allowed_transitions (some t) ≡ []))
early_transition none t e h = ground arith
early_transition (some received) t e h = ground arith
early_transition (some diagnosing) t e h = ground arith
early_transition (some _) t e h = cc

no_member : (t : WorkflowStatus) (l : List WorkflowStatus) → l ≡ [] → status_in t l ≡ true → ⊥
no_member t [] empty h = cc
no_member t (x ∷ l) empty h = cc

-- Nothing follows a status that has no transition.
terminal_stops :
    (s : Option WorkflowStatus) (ts rest : List WorkflowStatus)
    → allowed_transitions s ≡ []
    → Chain s (ts ++ executing ∷ rest)
    → ⊥
terminal_stops s [] rest ended h = no_member executing (allowed_transitions s) ended h.0
terminal_stops s (t ∷ ts) rest ended h = no_member t (allowed_transitions s) ended h.0

early_reaches_planned :
    (s : Option WorkflowStatus) (ts rest : List WorkflowStatus)
    → is_early s ≡ true
    → Chain s (ts ++ executing ∷ rest)
    → Passes planned ts
early_reaches_planned none [] rest e h = cc h.0
early_reaches_planned (some received) [] rest e h = cc h.0
early_reaches_planned (some diagnosing) [] rest e h = cc h.0
early_reaches_planned (some _) [] rest e h = cc
early_reaches_planned s (t ∷ ts) rest e h = elim (early_transition s t e h.0) [
  | inl now ↦ inl now
  | inr (inl still) ↦ inr (early_reaches_planned (some t) ts rest still h.1)
  | inr (inr ended) ↦ absurd (terminal_stops (some t) ts rest ended h.1)
]

-- A chain of allowed transitions from the creation of a workflow that reaches `executing` has
-- passed `planned` before.
pub planned_before_executing :
    (ts rest : List WorkflowStatus) → Chain none (ts ++ executing ∷ rest) → Passes planned ts
planned_before_executing ts rest h = early_reaches_planned none ts rest refl h

-- What a validated event says of its transition.
validate-allowed :
    (fromisoformat : String → Option Stamp) (event : WorkflowLifecycleEvent)
    → validate fromisoformat event ≡ ok tt
    → status_in event.to_status (allowed_transitions event.from_status) ≡ true
unfolding validate
validate-allowed fromisoformat event h = ground arith

-- The record after an event, against the one before.
pub record Follows (event : WorkflowLifecycleEvent) (before after : WorkflowRecord) : Type 0 where
  pub from : event.from_status ≡ some before.status
  pub allowed : status_in after.status (allowed_transitions (some before.status)) ≡ true
  pub to : after.status ≡ event.to_status
  pub tenant : (event.tenant_id ≡ before.tenant_id) × (after.tenant_id ≡ before.tenant_id)
  pub service : (event.service_id ≡ before.service_id) × (after.service_id ≡ before.service_id)
  pub environment :
      (event.environment ≡ before.environment) × (after.environment ≡ before.environment)
  pub version : after.version ≡ before.version

apply_from-Follows :
    (event : WorkflowLifecycleEvent) (source : Option WorkflowStatus)
    (before after : WorkflowRecord)
    → event.from_status ≡ source
    → status_in event.to_status (allowed_transitions event.from_status) ≡ true
    → apply_from event source (some before) ≡ ok after
    → Follows event before after
unfolding apply_from advanced
apply_from-Follows event none before after at allowed h = cc
apply_from-Follows event (some from) before after at allowed h =
    let returned : (same_status before.status from ≡ true)
        × (str_eq before.tenant_id event.tenant_id ≡ true)
        × (str_eq before.service_id event.service_id ≡ true)
        × (str_eq before.environment event.environment ≡ true)
        × (advanced event before ≡ after) =
      ground arith in
    let same : before.status ≡ from = same_status-eq before.status from returned.0 in
    let to : after.status ≡ event.to_status = rw (sym returned.4) refl in
    record {
      from = at ∙ ap some (sym same);
      allowed = cc;
      to = to;
      tenant = ground (arith, eq_iff before.tenant_id event.tenant_id);
      service = ground (arith, eq_iff before.service_id event.service_id);
      environment = ground (arith, eq_iff before.environment event.environment);
      version = cc;
    }

-- An event that is accepted for an existing workflow was sent for its present status, and makes a
-- transition of the table; the record keeps its tenant, service and environment, which are the
-- event's, and its version.
pub apply_to-Follows :
    (fromisoformat : String → Option Stamp) (event : WorkflowLifecycleEvent)
    (before after : WorkflowRecord)
    → apply_to fromisoformat event (some before) ≡ ok after
    → Follows event before after
unfolding apply_to
apply_to-Follows fromisoformat event before after h =
    let returned =
      both_return (validate fromisoformat event)
        (λ _. apply_from event event.from_status (some before)) h in
    apply_from-Follows event event.from_status before after refl
      (validate-allowed fromisoformat event returned.1) returned.2

abbrev pub status_of : Option WorkflowRecord → Option WorkflowStatus
status_of none = none
status_of (some r) = some r.status

-- An accepted event was sent for the status that the workflow has, or for none, and makes a
-- transition of the table; what it gives is for the event's workflow if the record was.
pub record Accepted (event : WorkflowLifecycleEvent) (current : Option WorkflowRecord)
    (candidate : WorkflowRecord) : Type 0 where
  pub from : event.from_status ≡ status_of current
  pub allowed : status_in event.to_status (allowed_transitions (status_of current)) ≡ true
  pub to : candidate.status ≡ event.to_status
  pub id :
      (candidate.workflow_id ≡ event.workflow_id)
      ⊎ ((r : WorkflowRecord) × (current ≡ some r) × (candidate.workflow_id ≡ r.workflow_id))

allowed_at :
    (t : WorkflowStatus) {s s' : Option WorkflowStatus}
    → s ≡ s'
    → status_in t (allowed_transitions s) ≡ true
    → status_in t (allowed_transitions s') ≡ true
allowed_at t same h = cc

apply_from-Accepted :
    (event : WorkflowLifecycleEvent) (source : Option WorkflowStatus)
    (current : Option WorkflowRecord) (candidate : WorkflowRecord)
    → event.from_status ≡ source
    → status_in event.to_status (allowed_transitions event.from_status) ≡ true
    → apply_from event source current ≡ ok candidate
    → Accepted event current candidate
unfolding apply_from created advanced
apply_from-Accepted event none none candidate at allowed h =
    let same : created event ≡ candidate = ground arith in
    record {
      from = at;
      allowed = allowed_at event.to_status at allowed;
      to = rw (sym same) refl;
      id = inl (rw (sym same) refl);
    }
apply_from-Accepted event (some from) none candidate at allowed h = cc
apply_from-Accepted event none (some current) candidate at allowed h = cc
apply_from-Accepted event (some from) (some current) candidate at allowed h =
    let returned : (same_status current.status from ≡ true) × (advanced event current ≡ candidate) =
      ground arith in
    let same : current.status ≡ from = same_status-eq current.status from returned.0 in
    let sent : event.from_status ≡ some current.status = at ∙ ap some (sym same) in
    record {
      from = sent;
      allowed = allowed_at event.to_status sent allowed;
      to = rw (sym returned.1) refl;
      id = inr (current, refl, rw (sym returned.1) refl);
    }

pub apply_to-Accepted :
    (fromisoformat : String → Option Stamp) (event : WorkflowLifecycleEvent)
    (current : Option WorkflowRecord) (candidate : WorkflowRecord)
    → apply_to fromisoformat event current ≡ ok candidate
    → Accepted event current candidate
unfolding apply_to
apply_to-Accepted fromisoformat event current candidate h =
    let returned =
      both_return (validate fromisoformat event) (λ _. apply_from event event.from_status current)
        h in
    apply_from-Accepted event event.from_status current candidate refl
      (validate-allowed fromisoformat event returned.1) returned.2
