-- ===== src/Remediation/Planner.antt =====
-- remediation/planner.py: the runbook that an incident analysis selects.
pub mod Grounds
mod Tests
use engineering_intelligence.Base.{
  String, ◌||◌, ◌&&◌, Option, none, some, List, [], ◌∷◌, if◌then◌else◌,
}
use engineering_intelligence.Base.Text.{mentions}
use engineering_intelligence.Intelligence.Incidents.{Library, Hypothesis, IncidentAnalysis}

module _ (lib : Library) where
  pub record RemediationPlan : Type 0 where
    pub runbook_id : String
    pub reason : String
    pub evidence_ids : List String
    pub confidence : lib.Float

  abbrev pub plan_for : String → String → Hypothesis lib → RemediationPlan
  plan_for runbook_id reason hypothesis = record {
    runbook_id = runbook_id;
    reason = reason;
    evidence_ids = hypothesis.evidence_ids;
    confidence = hypothesis.confidence;
  }

  -- The body of the first loop, for a hypothesis: none where the loop goes on.
  abbrev pub specific_plan : Hypothesis lib → Option RemediationPlan
  specific_plan hypothesis =
      if mentions "crashloopbackoff" hypothesis.title
      then some (
          plan_for "aks.restart.crashloop"
            "CrashLoopBackOff evidence selects a bounded restart with live pod-state preflight"
            hypothesis)
      else if mentions "readiness regression" hypothesis.title
      then some (
          plan_for "aks.rollback.readiness"
            "post-release readiness regression selects rollback with rollout-history preflight"
            hypothesis)
      else if mentions "oomkilled" hypothesis.title || mentions "memory pressure" hypothesis.title
      then some (
          plan_for "aks.restart.oom"
            "OOM evidence selects bounded recovery without silently changing resource policy"
            hypothesis)
      else none

  -- The body of the second.
  abbrev pub generic_plan : Hypothesis lib → Option RemediationPlan
  generic_plan hypothesis =
      if mentions "deployment" hypothesis.title && mentions "incident" hypothesis.title
      then some (
          plan_for "aks.rollout.undo" "recent deployment is correlated with incident onset"
            hypothesis)
      else none

  abbrev pub or_next : Option RemediationPlan → Option RemediationPlan → Option RemediationPlan
  or_next (some plan) next = some plan
  or_next none next = next

  abbrev pub first_plan :
      (Hypothesis lib → Option RemediationPlan) → List (Hypothesis lib) → Option RemediationPlan
  first_plan choose [] = none
  first_plan choose (h ∷ hypotheses) = or_next (choose h) (first_plan choose hypotheses)

  unfoldable pub plan_from_incident : IncidentAnalysis lib → Option RemediationPlan
  plan_from_incident analysis =
      or_next (first_plan specific_plan analysis.hypotheses)
        (first_plan generic_plan analysis.hypotheses)
