-- ===== src/Orchestration/Activities/Valid/Tests.antt =====
-- The activities at concrete inputs.
use Prim.Native.Char.{code}
use Prim.Native.String.{◌++◌}
use engineering_intelligence.Base.{
  ℕ, zero, suc, String, false, Option, none, some, [], ◌∷◌, ◌≡◌, refl, ◌↔◌, ◌==◌, if◌then◌else◌,
}
use engineering_intelligence.Base.Int.{pos, negsuc}
use engineering_intelligence.Base.Result.{ok, raised}
use engineering_intelligence.Base.Text.{is_blank, strip}
use engineering_intelligence.State.Lifecycle
use engineering_intelligence.State.Lifecycle.{
  is_alphanumeric, every, in_range, is_identifier_char, is_plan_hash,
}
use engineering_intelligence.State.Store.Samples
use engineering_intelligence.State.Audit.Samples as AuditSamples
use engineering_intelligence.Intelligence.Incidents.{EvidenceEvent, alert}
use engineering_intelligence.Base.{ltb, ◌+◌, ◌*◌}
use engineering_intelligence.Orchestration.RemediationWorkflow.{
  RemediationRequest, EvidenceBundle, RemediationPlanResult, ActionOutcome,
}
use engineering_intelligence.Orchestration.Activities.Bridge.{audit_log}
use engineering_intelligence.Orchestration.Activities.Evidence.{
  Clock, IsFaithful, evidence_to_mapping, evidence_from_mapping,
  evidence_from_mapping-evidence_to_mapping, IsComplete, bad_severity, required_text, pairs_of,
  kind_of,
}
use engineering_intelligence.Orchestration.Activities.{Stores}
use engineering_intelligence.Orchestration.Activities.Steps.{
  Configuration, collect_evidence, plan_remediation, execute_action, record_outcome,
}
use engineering_intelligence.Orchestration.Activities.Sends.{stopped_waiting}
use engineering_intelligence.Orchestration.Activities.Valid.{
  IsConfigured, HasPlanHash, is_refused, activities_send_valid_events,
}
use engineering_intelligence.State.Store.Refusals.{empty-IsNumbered}
use engineering_intelligence.State.Store.Codec.{loads-dumps}
use engineering_intelligence.Base.{inl, arith, true}

-- A clock that prints an instant as a run of letters.
abbrev print : ℕ → String
print zero = "e"
print (suc n) = String.◌∷◌ "a" (print n)

abbrev counted : Option ℕ → Option ℕ
counted none = none
counted (some n) = some (suc n)

abbrev read : String → Option ℕ
read String.[] = none
read (String.◌∷◌ c s) = let more = counted (read s) in if code c == b'a' then more else some zero

abbrev clock : Clock
clock = record { isoformat = print; fromisoformat = read }

read-print : (n : ℕ) → read (print n) ≡ some n
read-print zero = refl
read-print (suc n) = rw (read-print n) refl

print_is_not_blank : (n : ℕ) → is_blank (print n) ≡ false
unfolding is_blank strip
print_is_not_blank zero = refl
print_is_not_blank (suc n) = refl

clock-IsFaithful : IsFaithful clock
clock-IsFaithful = record { read_back = read-print; printed = print_is_not_blank }

abbrev observed : EvidenceEvent
observed = record {
  id = "a1";
  kind = alert;
  service = "payments";
  timestamp = 7;
  summary = "Pod in CrashLoopBackOff";
  source = "monitor";
  severity = pos 4;
  attributes = ("pod", "payments-0") ∷ [];
}

evidence_from_mapping-evidence_to_mapping_example :
    (evidence_from_mapping clock (evidence_to_mapping clock observed) ≡ ok observed)
    ↔ IsComplete observed
evidence_from_mapping-evidence_to_mapping_example =
    evidence_from_mapping-evidence_to_mapping clock clock-IsFaithful observed

negative_is_refused :
    evidence_from_mapping clock
      (evidence_to_mapping clock (record observed { severity = negsuc 0 }))
    ≡ raised bad_severity
unfolding evidence_from_mapping evidence_to_mapping required_text pairs_of kind_of is_blank strip
negative_is_refused = refl

abbrev digest : String
digest = "0123456789abcdef0123456789abcdef0123456789abcdef0123456789abcdef"

abbrev activities : Configuration
activities = record {
  control = record {
    store = record Samples.lib { sha256 = λ s. digest };
    audit = AuditSamples.lib;
    approvals = record { hmac_sha256 = λ secret s. secret ++ s; int_text = λ n. "t" };
    compact = λ fields. "{}";
    nat_text = λ n. "n";
  };
  incidents = record {
    Float = ℕ;
    hundredths = λ n. n;
    add = λ a b. a + b;
    times = λ a n. a * n;
    less = ltb;
    seconds_text = λ n. "300";
  };
  millionths = λ n. 10000 * n;
  sink = audit_log AuditSamples.lib;
  environ = λ name. some "enabled";
  actor = "agent:remediation-workflow";
  evidence_provider = λ incident service environment. ok (observed ∷ []);
  approval_secret = "key";
  autonomy_policies = [];
  control_loop = λ policy request. raised "no cluster";
  clock = clock;
  time = pos 100;
  strip = λ s. s;
  canonical = λ fields. "{}";
}

abbrev request : RemediationRequest
request = record {
  request_id = "req-1";
  incident_id = "inc-1";
  service = "payments";
  environment = "prod";
  correlation_id = "corr-1";
  tenant_id = "default";
  blast_radius = pos 1;
  approval_timeout_seconds = pos 60;
}

configured : IsConfigured activities
unfolding Lifecycle.is_identifier is_identifier_char every is_alphanumeric in_range is_plan_hash
configured = record { lossless = loads-dumps; hashed = λ s. refl; actor = refl }

abbrev bundle : EvidenceBundle
bundle = record {
  workflow_id_ = "remediation:req-1";
  workflow_version = 1;
  evidence = evidence_to_mapping clock observed ∷ [];
  evidence_ids = "a1" ∷ [];
  audit_event_hash = "h";
}

abbrev plan : RemediationPlanResult
plan = record {
  workflow_id_ = "remediation:req-1";
  planned = true;
  reason = "restart";
  runbook_id = some "aks.restart.crashloop";
  plan_hash = some ("sha256:" ++ digest);
  confidence = 860000;
  evidence_ids = "a1" ∷ [];
  workflow_version = 3;
}

abbrev outcome : ActionOutcome
outcome = record {
  status = "escalate";
  reason = "no approval";
  execution_ref = none;
  verified = false;
  rollback_ref = none;
  error = none;
  from_status = "waiting_approval";
  workflow_version = 3;
}

abbrev empty : Stores
empty = record { tables = Samples.empty; log = [] }

plan-HasPlanHash : HasPlanHash activities plan.plan_hash
unfolding is_plan_hash
plan-HasPlanHash = refl

activities_send_valid_events_example :
    (is_refused (collect_evidence activities request "now" empty).0 ≡ false)
    × (is_refused (plan_remediation activities request (some bundle) "now" empty).0 ≡ false)
    × (is_refused (execute_action activities request (some plan) true "now" empty).0 ≡ false)
    × (is_refused (record_outcome activities request (some plan) outcome "" "now" empty).0 ≡ false)
activities_send_valid_events_example =
    activities_send_valid_events activities configured request "now" 0 refl empty bundle plan true
      outcome "" (empty-IsNumbered activities.control.store) (omega arith) plan-HasPlanHash
      (omega arith) (stopped_waiting refl (inl refl)) (omega arith)
