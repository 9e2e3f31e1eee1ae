-- ===== src/State/Payload.antt =====
-- The payload column of state/store.py: `asdict` of a record as JSON with sorted keys, and the record
-- read back from it. json, hashlib and datetime are Python's: what the store uses of them is `Library`.
use engineering_intelligence.Base.{
  Bool, ℕ, String, Option, none, some, List, [], ◌∷◌, str_eq, if◌then◌else◌, ◌≡◌, refl,
}
use engineering_intelligence.Base.Int.{ℤ}
use engineering_intelligence.Base.Dict.{Dict, lookup}
use engineering_intelligence.Resilience.Scope.{Stamp}
use engineering_intelligence.State.Models.{
  WorkflowStatus, WorkflowRecord, ServiceRecord, status_value, received, diagnosing, planned,
  waiting_approval, executing, verifying, succeeded, rolled_back, escalated, failed, cancelled,
}
use engineering_intelligence.State.Lifecycle.{WorkflowLifecycleEvent}

pub data Json : Type 0 where
  text : String → Json
  number decimal : ℕ → Json
  integer : ℤ → Json
  texts : List String → Json
  arrays : List (List String) → Json
  mapping : Dict String → Json
  boolean : Bool → Json
  null : Json

-- `dumps_event` is canonical `json.dumps` of `canonical_payload`, `dumps` that of an object whose keys
-- are in order, and `loads` is none where `json.loads` raises. `sha256` is the hexadecimal digest.
pub record Library : Type 0 where
  pub fromisoformat : String → Option Stamp
  pub sha256 : String → String
  pub dumps_event : WorkflowLifecycleEvent → String
  pub dumps : Dict Json → String
  pub loads : String → Option (Dict Json)

-- What is read from JSON text is what was written.
abbrev pub IsLossless : Library → Type 0
IsLossless lib = (fields : Dict Json) → lib.loads (lib.dumps fields) ≡ some fields

unfoldable pub optional_text : Option String → Json
optional_text none = null
optional_text (some s) = text s

optional_decimal : Option ℕ → Json
optional_decimal none = null
optional_decimal (some n) = decimal n

-- `asdict(record)` in the order of its keys.
unfoldable pub workflow_fields : WorkflowRecord → Dict Json
unfolding optional_text
workflow_fields r =
    ("correlation_id", text r.correlation_id)
    ∷ ("environment", text r.environment)
    ∷ ("kind", text r.kind)
    ∷ ("plan_hash", optional_text r.plan_hash)
    ∷ ("service_id", text r.service_id)
    ∷ ("status", text (status_value r.status))
    ∷ ("tenant_id", text r.tenant_id)
    ∷ ("updated_at", text r.updated_at)
    ∷ ("version", number r.version)
    ∷ ("workflow_id", text r.workflow_id)
    ∷ []

unfoldable pub service_fields : ServiceRecord → Dict Json
unfolding optional_decimal
service_fields r =
    ("autonomy_level", number r.autonomy_level)
    ∷ ("dependencies", texts r.dependencies)
    ∷ ("metadata", mapping r.metadata)
    ∷ ("owner", text r.owner)
    ∷ ("repositories", texts r.repositories)
    ∷ ("service_id", text r.service_id)
    ∷ ("slo_target", optional_decimal r.slo_target)
    ∷ ("tier", number r.tier)
    ∷ ("version", number r.version)
    ∷ []

as_text : Option Json → Option String
as_text (some (text s)) = some s
as_text _ = none

-- Of a field with a default, which is taken when the field is missing.
as_text_or : String → Option Json → Option String
as_text_or default (some (text s)) = some s
as_text_or default none = some default
as_text_or default (some _) = none

as_number_or : ℕ → Option Json → Option ℕ
as_number_or default (some (number n)) = some n
as_number_or default none = some default
as_number_or default (some _) = none

as_texts : Option Json → Option (List String)
as_texts (some (texts l)) = some l
as_texts none = some []
as_texts _ = none

as_mapping : Option Json → Option (Dict String)
as_mapping (some (mapping d)) = some d
as_mapping none = some []
as_mapping _ = none

as_optional_text : Option Json → Option (Option String)
as_optional_text (some (text s)) = some (some s)
as_optional_text (some null) = some none
as_optional_text none = some none
as_optional_text _ = none

as_optional_decimal : Option Json → Option (Option ℕ)
as_optional_decimal (some (decimal n)) = some (some n)
as_optional_decimal (some null) = some none
as_optional_decimal none = some none
as_optional_decimal _ = none

-- `WorkflowStatus(value)`, which raises on another text.
unfoldable pub status_of : String → Option WorkflowStatus
status_of s =
    if str_eq s "received"
    then some received
    else if str_eq s "diagnosing"
    then some diagnosing
    else if str_eq s "planned"
    then some planned
    else if str_eq s "waiting_approval"
    then some waiting_approval
    else if str_eq s "executing"
    then some executing
    else if str_eq s "verifying"
    then some verifying
    else if str_eq s "succeeded"
    then some succeeded
    else if str_eq s "rolled_back"
    then some rolled_back
    else if str_eq s "escalated"
    then some escalated
    else if str_eq s "failed"
    then some failed
    else if str_eq s "cancelled"
    then some cancelled
    else none

infixl 5 ◌>>=◌
abbrev ◌>>=◌ {ℓ κ} : {A : Type ℓ} {B : Type κ} → Option A → (A → Option B) → Option B
o >>= f = elim o [ none ↦ none | some a ↦ f a ]

-- `_payload_to_workflow` and `_row_to_workflow`, after `json.loads`. A field of another type than the record's is
-- none, and so is a missing `updated_at`, whose default is the time of the call; the store writes neither.
unfoldable pub workflow_of : Dict Json → Option WorkflowRecord
unfolding as_text as_text_or as_number_or as_optional_text status_of
workflow_of raw = do
  status_text ← as_text (lookup "status" raw)
  status ← status_of status_text
  workflow_id ← as_text (lookup "workflow_id" raw)
  service_id ← as_text (lookup "service_id" raw)
  environment ← as_text (lookup "environment" raw)
  kind ← as_text (lookup "kind" raw)
  correlation_id ← as_text (lookup "correlation_id" raw)
  plan_hash ← as_optional_text (lookup "plan_hash" raw)
  version ← as_number_or 1 (lookup "version" raw)
  updated_at ← as_text (lookup "updated_at" raw)
  tenant_id ← as_text_or "default" (lookup "tenant_id" raw)
  some (record {
    workflow_id = workflow_id;
    service_id = service_id;
    environment = environment;
    kind = kind;
    status = status;
    correlation_id = correlation_id;
    plan_hash = plan_hash;
    version = version;
    updated_at = updated_at;
    tenant_id = tenant_id;
  })

-- `_row_to_service`, after `json.loads`.
unfoldable pub service_of : Dict Json → Option ServiceRecord
unfolding as_text as_number_or as_texts as_mapping as_optional_decimal
service_of raw = do
  repositories ← as_texts (lookup "repositories" raw)
  dependencies ← as_texts (lookup "dependencies" raw)
  service_id ← as_text (lookup "service_id" raw)
  owner ← as_text (lookup "owner" raw)
  tier ← as_number_or 3 (lookup "tier" raw)
  slo_target ← as_optional_decimal (lookup "slo_target" raw)
  autonomy_level ← as_number_or 0 (lookup "autonomy_level" raw)
  metadata ← as_mapping (lookup "metadata" raw)
  version ← as_number_or 1 (lookup "version" raw)
  some (record {
    service_id = service_id;
    owner = owner;
    tier = tier;
    repositories = repositories;
    dependencies = dependencies;
    slo_target = slo_target;
    autonomy_level = autonomy_level;
    metadata = metadata;
    version = version;
  })

status_of-value : (s : WorkflowStatus) → status_of (status_value s) ≡ some s
unfolding status_of
status_of-value received = refl
status_of-value diagnosing = refl
status_of-value planned = refl
status_of-value waiting_approval = refl
status_of-value executing = refl
status_of-value verifying = refl
status_of-value succeeded = refl
status_of-value rolled_back = refl
status_of-value escalated = refl
status_of-value failed = refl
status_of-value cancelled = refl

as_optional_text-of : (o : Option String) → as_optional_text (some (optional_text o)) ≡ some o
unfolding as_optional_text optional_text
as_optional_text-of none = refl
as_optional_text-of (some s) = refl

as_optional_decimal-of : (o : Option ℕ) → as_optional_decimal (some (optional_decimal o)) ≡ some o
unfolding as_optional_decimal optional_decimal
as_optional_decimal-of none = refl
as_optional_decimal-of (some s) = refl

-- A record of a workflow is read back as it was written.
pub workflow_of-fields : (r : WorkflowRecord) → workflow_of (workflow_fields r) ≡ some r
unfolding workflow_of workflow_fields
workflow_of-fields r = rw (status_of-value r.status, as_optional_text-of r.plan_hash) refl

-- A record of a service is read back as it was written.
pub service_of-fields : (r : ServiceRecord) → service_of (service_fields r) ≡ some r
unfolding service_of service_fields
service_of-fields r = rw (as_optional_decimal-of r.slo_target) refl
