-- ===== src/Remediation/Planner/Tests.antt =====
-- The planner at a concrete incident.
use engineering_intelligence.Base.{ℕ, ◌+◌, ◌*◌, ltb, none, some, List, [], ◌∷◌, ◌≡◌, refl, ◌↔◌}
use engineering_intelligence.Base.Int.{pos}
use engineering_intelligence.Base.Text.{mentions}
use engineering_intelligence.Base.Select.{keep, find, any, last, take, sort_by}
use engineering_intelligence.Intelligence.Incidents.{
  EvidenceEvent, deployment, alert, Library, timeline_of, analyze_incident,
}
use engineering_intelligence.Remediation.Planner.{RemediationPlan, plan_from_incident}
use engineering_intelligence.Remediation.Planner.Grounds.{IsGrounded, plan-IsGrounded}

-- Confidences in hundredths.
abbrev lib : Library
lib = record {
  Float = ℕ;
  hundredths = λ n. n;
  add = λ a b. a + b;
  times = λ a n. a * n;
  less = ltb;
  seconds_text = λ n. "300";
}

abbrev release : EvidenceEvent
release = record {
  id = "d1";
  kind = deployment;
  service = "payments";
  timestamp = 100;
  summary = "release 42";
  source = "pipeline";
  severity = pos 1;
  attributes = [];
}

abbrev crash : EvidenceEvent
crash = record {
  id = "a1";
  kind = alert;
  service = "payments";
  timestamp = 300000100;
  summary = "Pod in CrashLoopBackOff";
  source = "monitor";
  severity = pos 4;
  attributes = [];
}

abbrev events : List EvidenceEvent
events = crash ∷ record crash { id = "other"; service = "search" } ∷ release ∷ []

-- The crash loop outranks the release that came before it.
abbrev restart : RemediationPlan lib
restart = record {
  runbook_id = "aks.restart.crashloop";
  reason = "CrashLoopBackOff evidence selects a bounded restart with live pod-state preflight";
  evidence_ids = "a1" ∷ [];
  confidence = 86;
}

restart_is_planned : plan_from_incident lib (analyze_incident lib events "payments") ≡ some restart
unfolding plan_from_incident analyze_incident timeline_of mentions keep find any last take sort_by
restart_is_planned = refl

plan-IsGrounded_example :
    ((plan : RemediationPlan lib)
      → plan_from_incident lib (analyze_incident lib events "payments") ≡ some plan
      → IsGrounded lib events "payments" plan)
    × ((plan_from_incident lib (analyze_incident lib events "payments") ≡ none)
        ↔ ((analyze_incident lib events "payments").hypotheses ≡ []))
plan-IsGrounded_example = plan-IsGrounded lib events "payments"
