-- ===== src/Intelligence/Incidents.antt =====
-- intelligence/incidents.py: the analysis of an incident from its evidence. A timestamp is an instant in
-- microseconds; comparing one with a zone to one without, which raises, is not modelled. Python's floats
-- and its `str` of the whole seconds of a time difference are parameters.
use Prim.Native.String.{◌++◌}
use engineering_intelligence.Base.{◌++◌ as ◌⧺◌}
use engineering_intelligence.Base.{
  ℕ, ◌-◌, String, Bool, true, false, ◌&&◌, ◌||◌, Option, none, some, List, [], ◌∷◌, map, ltb, leb,
  length, str_eq, if◌then◌else◌,
}
use engineering_intelligence.Base.Int.{ℤ, pos, leb_ℤ}
use engineering_intelligence.Base.Text.{mentions}
use engineering_intelligence.Base.Select.{keep, find, any, last, take, sort_by}

pub data EvidenceKind : Type 0 where
  alert metric log trace k8s_event deployment incident : EvidenceKind

pub record EvidenceEvent : Type 0 where
  pub id : String
  pub kind : EvidenceKind
  pub service : String
  pub timestamp : ℕ
  pub summary : String
  pub source : String
  pub severity : ℤ
  pub attributes : List (String × String)

-- `hundredths n` is the literal of n hundredths, `less` the operator `<`, and `seconds_text` the text of
-- `int(delta)` for a difference in microseconds.
pub record Library : Type 1 where
  pub Float : Type 0
  pub hundredths : ℕ → Float
  pub add : Float → Float → Float
  pub times : Float → ℕ → Float
  pub less : Float → Float → Bool
  pub seconds_text : ℕ → String

abbrev pub is_deployment : EvidenceEvent → Bool
is_deployment e = elim e.kind [ deployment ↦ true | _ ↦ false ]

abbrev pub is_failure_kind : EvidenceKind → Bool
is_failure_kind alert = true
is_failure_kind k8s_event = true
is_failure_kind log = true
is_failure_kind _ = false

abbrev pub is_failure : EvidenceEvent → Bool
is_failure e = is_failure_kind e.kind && leb_ℤ (pos 3) e.severity

abbrev pub is_crashloop : EvidenceEvent → Bool
is_crashloop e = mentions "crashloop" e.summary || mentions "back-off restarting" e.summary

abbrev pub is_readiness : EvidenceEvent → Bool
is_readiness e =
    mentions "readiness" e.summary
    || mentions "unready" e.summary
    || mentions "probe failed" e.summary

abbrev pub is_oom : EvidenceEvent → Bool
is_oom e = mentions "oom" e.summary || mentions "memory" e.summary

-- `relevant`, in the order of time.
unfoldable pub timeline_of : List EvidenceEvent → String → List EvidenceEvent
timeline_of events service =
    sort_by (λ earlier e. ltb earlier.timestamp e.timestamp)
      (keep (λ e. str_eq e.service service) events)

module _ (lib : Library) where
  pub record Hypothesis : Type 0 where
    pub title : String
    pub confidence : lib.Float
    pub facts : List String
    pub inferences : List String
    pub evidence_ids : List String

  pub record IncidentAnalysis : Type 0 where
    pub timeline : List EvidenceEvent
    pub hypotheses : List Hypothesis

  -- `min(bound, score)`
  abbrev pub at_most : lib.Float → lib.Float → lib.Float
  at_most bound score = if lib.less score bound then score else bound

  -- Between the latest deployment and the first failure after it.
  abbrev pub correlated : EvidenceEvent → Option EvidenceEvent → List Hypothesis
  correlated deploy none = []
  correlated deploy (some failure) =
      let delta = failure.timestamp - deploy.timestamp in
      if leb delta 1800000000
      then record {
        title = "Recent deployment is correlated with incident onset";
        confidence = if leb delta 600000000 then lib.hundredths 85 else lib.hundredths 70;
        facts =
            ("deployment " ++ deploy.id ++ " occurred before failure " ++ failure.id)
            ∷ ("failure began " ++ lib.seconds_text delta ++ " seconds after deployment")
            ∷ [];
        inferences = "the deployment may have introduced the failing condition" ∷ [];
        evidence_ids = deploy.id ∷ failure.id ∷ [];
      }
        ∷ []
      else []

  abbrev pub deployment_hypothesis : Option EvidenceEvent → List EvidenceEvent → List Hypothesis
  deployment_hypothesis none failures = []
  deployment_hypothesis (some deploy) failures =
      correlated deploy (find (λ f. leb deploy.timestamp f.timestamp) failures)

  abbrev pub crashloop_hypothesis : List EvidenceEvent → List Hypothesis
  crashloop_hypothesis [] = []
  crashloop_hypothesis (e ∷ crashloop) =
      record {
        title = "CrashLoopBackOff is preventing workload recovery";
        confidence =
            at_most (lib.hundredths 97)
              (lib.add (lib.hundredths 82) (lib.times (lib.hundredths 4) (length (e ∷ crashloop))));
        facts = map (λ f. f.summary) (take 4 (e ∷ crashloop));
        inferences =
            "a bounded restart is allowed only if live preflight confirms CrashLoopBackOff" ∷ [];
        evidence_ids = map (λ f. f.id) (take 4 (e ∷ crashloop));
      }
      ∷ []

  abbrev pub readiness_hypothesis : Option EvidenceEvent → List EvidenceEvent → List Hypothesis
  readiness_hypothesis none readiness = []
  readiness_hypothesis (some deploy) readiness =
      if any (λ f. leb deploy.timestamp f.timestamp) readiness
      then record {
        title = "Readiness regression followed the latest deployment";
        confidence =
            at_most (lib.hundredths 95)
              (lib.add (lib.hundredths 80) (lib.times (lib.hundredths 3) (length readiness)));
        facts = ("latest deployment=" ++ deploy.id) ∷ map (λ f. f.summary) (take 3 readiness);
        inferences =
            "rollback is preferable to blind restart when readiness regressed after release" ∷ [];
        evidence_ids = deploy.id ∷ map (λ f. f.id) (take 3 readiness);
      }
        ∷ []
      else []

  abbrev pub oom_hypothesis : List EvidenceEvent → List Hypothesis
  oom_hypothesis [] = []
  oom_hypothesis (e ∷ []) = []
  oom_hypothesis (e ∷ f ∷ oom) =
      record {
        title = "OOMKilled or memory pressure is a likely contributing factor";
        confidence =
            at_most (lib.hundredths 95)
              (lib.add (lib.hundredths 55) (lib.times (lib.hundredths 10) (length (e ∷ f ∷ oom))));
        facts = map (λ x. x.summary) (take 4 (e ∷ f ∷ oom));
        inferences = "memory limits, leaks, or workload growth should be investigated" ∷ [];
        evidence_ids = map (λ x. x.id) (take 4 (e ∷ f ∷ oom));
      }
      ∷ []

  -- The hypotheses in the order in which they are found.
  abbrev pub found_in : List EvidenceEvent → List Hypothesis
  found_in relevant =
      let latest_deploy = last (keep is_deployment relevant) in
      deployment_hypothesis latest_deploy (keep is_failure relevant)
      ⧺ (crashloop_hypothesis (keep is_crashloop relevant)
          ⧺ (readiness_hypothesis latest_deploy (keep is_readiness relevant)
              ⧺ oom_hypothesis (keep is_oom relevant)))

  unfoldable pub analyze_incident : List EvidenceEvent → String → IncidentAnalysis
  unfolding timeline_of
  analyze_incident events service =
      let relevant = timeline_of events service in
      record {
        timeline = relevant;
        hypotheses =
            sort_by (λ surer h. lib.less h.confidence surer.confidence) (found_in relevant);
      }
