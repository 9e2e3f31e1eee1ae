-- ===== src/State/Lifecycle.antt =====
-- state/lifecycle.py: the transition table, the validation of an event, and its application.
-- The two regular expressions are tests on code points. Attributes are what canonical `json.dumps`
-- makes of them: a text, or `none` where it raises. A version that is not positive is 0.
pub mod Transitions
mod Tests
use engineering_intelligence.Base.{
  ℕ, String, Bool, true, false, not, ◌&&◌, ◌||◌, Option, none, some, List, [], ◌∷◌, suc, zero, leb,
  ltb, ◌==◌, str_eq, length, if◌then◌else◌,
}
use engineering_intelligence.Base.Result.{Result, ok, raised, ◌>>=◌, ◌>>◌, raise_if}
use engineering_intelligence.Base.Text.{codes}
use engineering_intelligence.Resilience.Scope.{Stamp, aware, naive}
use engineering_intelligence.State.Models.{
  WorkflowStatus, WorkflowRecord, received, diagnosing, planned, waiting_approval, executing,
  verifying, succeeded, rolled_back, escalated, failed, cancelled, same_status,
}

-- `_ALLOWED_TRANSITIONS`
abbrev pub allowed_transitions : Option WorkflowStatus → List WorkflowStatus
allowed_transitions none = received ∷ []
allowed_transitions (some received) = diagnosing ∷ planned ∷ failed ∷ escalated ∷ cancelled ∷ []
allowed_transitions (some diagnosing) = planned ∷ failed ∷ escalated ∷ cancelled ∷ []
allowed_transitions (some planned) =
    waiting_approval ∷ executing ∷ succeeded ∷ failed ∷ escalated ∷ cancelled ∷ []
allowed_transitions (some waiting_approval) = executing ∷ failed ∷ escalated ∷ cancelled ∷ []
allowed_transitions (some executing) = verifying ∷ rolled_back ∷ failed ∷ escalated ∷ cancelled ∷ []
allowed_transitions (some verifying) = succeeded ∷ rolled_back ∷ failed ∷ escalated ∷ []
allowed_transitions (some succeeded) = []
allowed_transitions (some rolled_back) = []
allowed_transitions (some escalated) = []
allowed_transitions (some failed) = []
allowed_transitions (some cancelled) = []

abbrev pub status_in : WorkflowStatus → List WorkflowStatus → Bool
status_in s [] = false
status_in s (t ∷ ts) = same_status s t || status_in s ts

pub record WorkflowLifecycleEvent : Type 0 where
  pub event_id : String
  pub idempotency_key : String
  pub workflow_id : String
  pub tenant_id : String
  pub service_id : String
  pub environment : String
  pub kind : String
  pub correlation_id : String
  pub actor : String
  pub action : String
  pub from_status : Option WorkflowStatus
  pub to_status : WorkflowStatus
  pub expected_version : Option ℕ
  pub plan_hash : Option String
  pub causation_id : Option String
  pub consequential : Bool
  pub attributes : Option String
  pub occurred_at : String
  pub schema_version : ℕ

-- The texts of `LifecycleContractError`, with what they name.
pub data LifecycleError : Type 0 where
  bad_identifier changed : String → LifecycleError
  bad_causation bad_schema bad_plan_hash bad_version bad_creation no_expected_version bad_timestamp
        naive_timestamp bad_attributes no_workflow already_exists :
      LifecycleError
  transition_not_allowed : Option WorkflowStatus → WorkflowStatus → LifecycleError
  unexpected_status : WorkflowStatus → WorkflowStatus → LifecycleError

unfoldable pub in_range : ℕ → ℕ → ℕ → Bool
in_range lo hi c = leb lo c && leb c hi

unfoldable pub is_alphanumeric : ℕ → Bool
is_alphanumeric c = in_range b'a' b'z' c || in_range b'A' b'Z' c || in_range b'0' b'9' c

unfoldable pub is_identifier_char : ℕ → Bool
is_identifier_char c =
    is_alphanumeric c || c == b'.' || c == b'_' || c == b':' || c == b'/' || c == b'@' || c == b'-'

is_hex_digit : ℕ → Bool
is_hex_digit c = in_range b'a' b'f' c || in_range b'0' b'9' c

unfoldable pub every : (ℕ → Bool) → List ℕ → Bool
every test [] = true
every test (c ∷ s) = test c && every test s

unfoldable pub identifier_codes : List ℕ → Bool
identifier_codes [] = false
identifier_codes (c ∷ s) = is_alphanumeric c && every is_identifier_char s && leb (length s) 191

-- `_IDENTIFIER.fullmatch`
unfoldable pub is_identifier : String → Bool
unfolding identifier_codes is_alphanumeric every is_identifier_char in_range
is_identifier text = identifier_codes (codes text)

-- What follows a prefix, if the text has it.
after_prefix : List ℕ → List ℕ → Option (List ℕ)
after_prefix [] s = some s
after_prefix (p ∷ prefix) [] = none
after_prefix (p ∷ prefix) (c ∷ s) =
    let rest = after_prefix prefix s in if p == c then rest else none

hex_digest : Option (List ℕ) → Bool
hex_digest none = false
hex_digest (some s) = every is_hex_digit s && length s == 64

-- `_PLAN_HASH.fullmatch`
unfoldable pub is_plan_hash : String → Bool
unfolding after_prefix hex_digest every is_hex_digit in_range
is_plan_hash text = hex_digest (after_prefix (codes "sha256:") (codes text))

-- A check on a value that may be `None`.
abbrev pub when_set {ℓ} : {A : Type ℓ} → (A → Bool) → Option A → Bool
when_set test none = false
when_set test (some a) = test a

unfoldable pub check_identifiers : List (String × String) → Result LifecycleError (Unit {0})
check_identifiers [] = ok tt
check_identifiers ((label, value) ∷ rest) =
    raise_if (not (is_identifier value)) (bad_identifier label) >> check_identifiers rest

-- The version that an event expects, against whether it creates a workflow.
unfoldable pub check_version :
    Option WorkflowStatus → WorkflowStatus → Option ℕ → Result LifecycleError (Unit {0})
check_version none received none = ok tt
check_version none _ _ = raised bad_creation
check_version (some from) to none = raised no_expected_version
check_version (some from) to (some version) = ok tt

unfoldable pub check_timestamp : Option Stamp → Result LifecycleError (Unit {0})
check_timestamp none = raised bad_timestamp
check_timestamp (some (naive t)) = raised naive_timestamp
check_timestamp (some (aware t)) = ok tt

unfoldable pub check_attributes : Option String → Result LifecycleError (Unit {0})
check_attributes none = raised bad_attributes
check_attributes (some text) = ok tt

-- `fromisoformat` is Python's.
unfoldable pub validate :
    (String → Option Stamp) → WorkflowLifecycleEvent → Result LifecycleError (Unit {0})
unfolding check_identifiers check_version check_timestamp check_attributes
validate fromisoformat event = do
  check_identifiers (
      ("event_id", event.event_id)
      ∷ ("idempotency_key", event.idempotency_key)
      ∷ ("workflow_id", event.workflow_id)
      ∷ ("tenant_id", event.tenant_id)
      ∷ ("service_id", event.service_id)
      ∷ ("environment", event.environment)
      ∷ ("kind", event.kind)
      ∷ ("correlation_id", event.correlation_id)
      ∷ ("actor", event.actor)
      ∷ ("action", event.action)
      ∷ [])
  raise_if (when_set (λ id. not (is_identifier id)) event.causation_id) bad_causation
  raise_if (not (event.schema_version == 1)) bad_schema
  raise_if (when_set (λ hash. not (is_plan_hash hash)) event.plan_hash) bad_plan_hash
  raise_if (when_set (λ version. ltb version 1) event.expected_version) bad_version
  check_version event.from_status event.to_status event.expected_version
  raise_if (not (status_in event.to_status (allowed_transitions event.from_status)))
      (transition_not_allowed event.from_status event.to_status)
  check_timestamp (fromisoformat event.occurred_at)
  check_attributes event.attributes

unfoldable pub created : WorkflowLifecycleEvent → WorkflowRecord
created event = record {
  workflow_id = event.workflow_id;
  service_id = event.service_id;
  environment = event.environment;
  kind = event.kind;
  status = event.to_status;
  correlation_id = event.correlation_id;
  plan_hash = event.plan_hash;
  version = 1;
  updated_at = event.occurred_at;
  tenant_id = event.tenant_id;
}

unfoldable pub or_else : Option String → Option String → Option String
or_else none old = old
or_else (some new) old = some new

unfoldable pub advanced : WorkflowLifecycleEvent → WorkflowRecord → WorkflowRecord
advanced event current = record current {
  status = event.to_status;
  plan_hash = or_else event.plan_hash current.plan_hash;
  updated_at = event.occurred_at;
}

-- `apply_to` after the validation, by whether the record and the source status are there.
unfoldable pub apply_from :
    WorkflowLifecycleEvent
    → Option WorkflowStatus
    → Option WorkflowRecord
    → Result LifecycleError WorkflowRecord
apply_from event none none = ok (created event)
apply_from event (some from) none = raised no_workflow
apply_from event none (some current) = raised already_exists
apply_from event (some from) (some current) = do
  raise_if (not (same_status current.status from)) (unexpected_status current.status from)
  raise_if (not (str_eq current.tenant_id event.tenant_id)) (changed "tenant_id")
  raise_if (not (str_eq current.service_id event.service_id)) (changed "service_id")
  raise_if (not (str_eq current.environment event.environment)) (changed "environment")
  raise_if (not (str_eq current.kind event.kind)) (changed "kind")
  raise_if (not (str_eq current.correlation_id event.correlation_id)) (changed "correlation_id")
  ok (advanced event current)

unfoldable pub apply_to :
    (String → Option Stamp)
    → WorkflowLifecycleEvent
    → Option WorkflowRecord
    → Result LifecycleError WorkflowRecord
unfolding apply_from created advanced or_else
apply_to fromisoformat event current =
    validate fromisoformat event >> apply_from event event.from_status current
