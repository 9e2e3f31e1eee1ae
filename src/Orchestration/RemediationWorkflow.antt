-- ===== src/Orchestration/RemediationWorkflow.antt =====
-- orchestration/remediation_workflow.py: the contracts, the gate and the decisions of the remediation
-- workflow. A confidence, a float that is only carried, is in thousandths; the evidence is the list of its
-- JSON texts.
pub mod Run
pub mod Signals
pub mod Deadline
pub mod Stages
pub mod Authority
pub mod Ends
pub mod Identifiers
mod Tests
use Prim.Native.String.{◌++◌}
use engineering_intelligence.Base.{
  ℕ, String, Bool, true, false, not, ◌&&◌, ◌||◌, Option, none, some, List, [], ◌∷◌, ◌==◌, leb,
  length, str_eq, if◌then◌else◌,
}
use engineering_intelligence.State.Payload.{Json}
use engineering_intelligence.Base.Dict.{Dict, lookup}
use engineering_intelligence.Base.Int.{ℤ, pos, ltb_ℤ, leb_ℤ}
use engineering_intelligence.Base.Result.{Result, ok, raised, raise_if, ◌>>=◌, ◌>>◌}
use engineering_intelligence.Base.Text.{codes, is_blank, reads_as}
use engineering_intelligence.ControlPlane.Runtime.{Environ, get_or}
use engineering_intelligence.State.Lifecycle.{is_alphanumeric, every, in_range, is_plan_hash}

unfoldable pub remediation_workflows_enabled : Environ → Bool
remediation_workflows_enabled environ =
    reads_as "enabled" (get_or "" (environ "EIP_TEMPORAL_REMEDIATION_WORKFLOWS"))

pub record RemediationRequest : Type 0 where
  pub request_id : String
  pub incident_id : String
  pub service : String
  pub environment : String
  pub correlation_id : String
  pub tenant_id : String
  pub blast_radius : ℤ
  pub approval_timeout_seconds : ℤ

pub data RequestError : Type 0 where
  bad_identifier : String → RequestError
  negative_blast_radius bad_timeout : RequestError

is_identifier_char : ℕ → Bool
is_identifier_char c = is_alphanumeric c || c == b'.' || c == b'_' || c == b':' || c == b'-'

identifier_codes : List ℕ → Bool
unfolding is_identifier_char
identifier_codes [] = false
identifier_codes (c ∷ s) = is_alphanumeric c && every is_identifier_char s && leb (length s) 127

-- `_IDENTIFIER.fullmatch`
unfoldable pub is_identifier : String → Bool
unfolding identifier_codes is_alphanumeric every in_range
is_identifier text = identifier_codes (codes text)

check_identifiers : List (String × String) → Result RequestError (Unit {0})
check_identifiers [] = ok tt
check_identifiers ((label, value) ∷ rest) =
    raise_if (not (is_identifier value)) (bad_identifier label) >> check_identifiers rest

unfoldable pub validate : RemediationRequest → Result RequestError (Unit {0})
unfolding check_identifiers
validate request = do
  check_identifiers (
      ("request_id", request.request_id)
      ∷ ("incident_id", request.incident_id)
      ∷ ("service", request.service)
      ∷ ("environment", request.environment)
      ∷ ("correlation_id", request.correlation_id)
      ∷ ("tenant_id", request.tenant_id)
      ∷ [])
  raise_if (ltb_ℤ request.blast_radius (pos 0)) negative_blast_radius
  raise_if (leb_ℤ request.approval_timeout_seconds (pos 0)) bad_timeout

-- The property `workflow_id`, which validates the request.
unfoldable pub workflow_id : RemediationRequest → Result RequestError String
workflow_id request = do validate request; ok ("remediation:" ++ request.request_id)

pub record EvidenceBundle : Type 0 where
  pub workflow_id_ : String
  pub workflow_version : ℕ
  pub evidence : List (Dict Json)
  pub evidence_ids : List String
  pub audit_event_hash : String

pub record RemediationPlanResult : Type 0 where
  pub workflow_id_ : String
  pub planned : Bool
  pub reason : String
  pub runbook_id : Option String
  pub plan_hash : Option String
  pub confidence : ℕ
  pub evidence_ids : List String
  pub workflow_version : ℕ

pub record RemediationApprovalSignal : Type 0 where
  pub workflow_id_ : String
  pub approver : String
  pub plan_hash : String
  pub issued_at : ℤ
  pub signature : String

pub record ApprovalSignalDecision : Type 0 where
  pub accepted : Bool
  pub reason : String

-- `not expected_plan_hash or not _PLAN_HASH.fullmatch(expected_plan_hash)`; the empty text is no plan hash.
abbrev pub lacks_plan_hash : Option String → Bool
lacks_plan_hash none = true
lacks_plan_hash (some hash) = not (is_plan_hash hash)

abbrev pub is_hash : Option String → String → Bool
is_hash none hash = false
is_hash (some expected) hash = str_eq hash expected

unfoldable pub evaluate_approval_signal :
    String → Option String → RemediationApprovalSignal → ApprovalSignalDecision
evaluate_approval_signal expected_workflow_id expected_plan_hash signal =
    if lacks_plan_hash expected_plan_hash
    then record { accepted = false; reason = "there is no approved plan hash to approve against" }
    else if not (str_eq signal.workflow_id_ expected_workflow_id)
    then record { accepted = false; reason = "approval names a different workflow" }
    else if not (is_hash expected_plan_hash signal.plan_hash)
    then record {
      accepted = false;
      reason = "approval plan hash does not match the planned remediation";
    }
    else if is_blank signal.approver
    then record { accepted = false; reason = "approval does not name an approver" }
    else if is_blank signal.signature
    then record { accepted = false; reason = "approval carries no signature to verify" }
    else record { accepted = true; reason = "approval is bound to this workflow and plan hash" }

pub record ApprovalVerification : Type 0 where
  pub verified : Bool
  pub reason : String
  pub approver : String

pub record PolicyVerdict : Type 0 where
  pub allowed : Bool
  pub reason : String
  pub policy_revision : String

pub record RehearsalVerdict : Type 0 where
  pub safe_to_promote : Bool
  pub status : String
  pub notes : List String

pub record ActionOutcome : Type 0 where
  pub status : String
  pub reason : String
  pub execution_ref : Option String
  pub verified : Bool
  pub rollback_ref : Option String
  pub error : Option String
  pub from_status : String
  pub workflow_version : ℕ

pub record RemediationOutcome : Type 0 where
  pub workflow_id_ : String
  pub status : String
  pub reason : String
  pub plan_hash : Option String
  pub approver : String
  pub execution_ref : Option String
  pub rollback_ref : Option String
  pub audit_event_hash : String
  pub mutation_attempted : Bool

pub record StepDecision : Type 0 where
  pub proceed : Bool
  pub terminal_status : String
  pub reason : String

abbrev pub go_on : StepDecision
go_on = record { proceed = true; terminal_status = ""; reason = "" }

abbrev pub stop : String → String → StepDecision
stop status reason = record { proceed = false; terminal_status = status; reason = reason }

-- `reason or default`
abbrev pub or_text : String → String → String
or_text reason default = if str_eq reason "" then default else reason

-- `not text`
abbrev pub is_missing : Option String → Bool
is_missing none = true
is_missing (some text) = str_eq text ""

unfoldable pub decide_after_plan : RemediationPlanResult → StepDecision
decide_after_plan plan =
    if not plan.planned || is_missing plan.runbook_id || is_missing plan.plan_hash
    then stop "escalate" (or_text plan.reason "no certified runbook matched the evidence")
    else go_on

unfoldable pub decide_after_approval : ApprovalVerification → StepDecision
decide_after_approval verification =
    if not verification.verified
    then stop "escalate" (or_text verification.reason "human approval could not be verified")
    else go_on

unfoldable pub decide_after_policy : PolicyVerdict → StepDecision
decide_after_policy verdict =
    if not verdict.allowed
    then stop "denied" (or_text verdict.reason "policy denied the remediation")
    else go_on

unfoldable pub decide_after_rehearsal : RehearsalVerdict → StepDecision
decide_after_rehearsal rehearsal =
    if not rehearsal.safe_to_promote
    then stop "escalate" "digital-twin rehearsal did not verify; production promotion stays blocked"
    else go_on

-- `_TERMINAL_STATUS`
abbrev pub terminal_status : Dict String
terminal_status =
    ("succeeded", "succeeded")
    ∷ ("rolled_back", "rolled_back")
    ∷ ("escalate", "escalated")
    ∷ ("escalated", "escalated")
    ∷ ("denied", "denied")
    ∷ []

abbrev pub or_failed : Option String → String
or_failed none = "failed"
or_failed (some status) = status

unfoldable pub terminal_status_for_action : ActionOutcome → String
terminal_status_for_action outcome = or_failed (lookup outcome.status terminal_status)
