-- ===== src/Remediation/Planner/Grounds.antt =====
-- What a plan of remediation/planner.py stands on: evidence of the incident, and a shipped runbook.
use engineering_intelligence.Base.{
  ℕ, ◌-◌, String, true, false, ◌&&◌, ◌||◌, Option, none, some, List, [], ◌∷◌, ◌≡◌, refl, sym, ap,
  ◌∙◌, ◌↔◌, inl, inr, map, All, leb, is_empty, Bool-cases, eq_iff, str_eq,
}
use engineering_intelligence.Base.Dict.{is_some}
use engineering_intelligence.Base.Result.{ok}
use engineering_intelligence.Base.Text.{mentions}
use engineering_intelligence.Base.Select.{
  keep, find, any, last, take, In, OfSome, All-keep, OfSome-find, OfSome-last, All-take,
  All-sort_by, All-kept, All-append, All-imp, All-In, All-map,
}
use engineering_intelligence.Intelligence.Incidents.{
  EvidenceEvent, Library, Hypothesis, IncidentAnalysis, is_deployment, is_failure, is_crashloop,
  is_readiness, is_oom, correlated, deployment_hypothesis, crashloop_hypothesis,
  readiness_hypothesis, oom_hypothesis, timeline_of, found_in, analyze_incident,
}
use engineering_intelligence.Remediation.Catalog.{Runbook, get}
use engineering_intelligence.Remediation.Catalog.Default.{keyed}
use engineering_intelligence.Remediation.Planner.{
  RemediationPlan, plan_for, specific_plan, generic_plan, or_next, first_plan, plan_from_incident,
}

module _ (lib : Library) (events : List EvidenceEvent) (service : String) where
  -- The identifier is one of an event of the service.
  abbrev pub Sourced : String → Type 0
  Sourced id = (e : EvidenceEvent) × In e events × (e.service ≡ service) × (e.id ≡ id)

  abbrev IsRelevant : EvidenceEvent → Type 0
  IsRelevant e = In e events × (e.service ≡ service)

  abbrev IsEvidence : List String → Type 0
  IsEvidence ids = All Sourced ids × (is_empty ids ≡ false)

  -- A hypothesis with its evidence that one of the two loops of the planner takes.
  abbrev IsSupported : Hypothesis lib → Type 0
  IsSupported h =
      IsEvidence h.evidence_ids
      × (is_some (or_next lib (specific_plan lib h) (generic_plan lib h)) ≡ true)

  source : (e : EvidenceEvent) → IsRelevant e → Sourced e.id
  source e (member, same) = (e, member, same, refl)

  sources :
      (n : ℕ) (es : List EvidenceEvent)
      → All IsRelevant es
      → All Sourced (map (λ e. e.id) (take n es))
  sources n es h =
      All-map Sourced (λ e. e.id) (take n es)
        (All-imp (take n es) source (All-take IsRelevant n es h))

  timeline_of-IsRelevant : All IsRelevant (timeline_of events service)
  unfolding timeline_of
  timeline_of-IsRelevant = All-sort_by IsRelevant _ (keep (λ e. str_eq e.service service) events) (
      All-imp (keep (λ e. str_eq e.service service) events)
        (λ e h. (h.0, (eq_iff e.service service).0 h.1))
        (All-kept (λ e. In e events) (λ e. str_eq e.service service) events (All-In events)))

  correlated-IsSupported :
      (deploy : EvidenceEvent) (failure : Option EvidenceEvent)
      → IsRelevant deploy
      → OfSome IsRelevant failure
      → All IsSupported (correlated lib deploy failure)
  unfolding mentions
  correlated-IsSupported deploy none d f = tt
  correlated-IsSupported deploy (some failure) d f =
      elim (Bool-cases (leb (failure.timestamp - deploy.timestamp) 1800000000)) [
        | inl close ↦ rw close ((((source deploy d, (source failure f, tt)), refl), refl), tt)
        | inr far ↦ rw far tt
      ]

  deployment-IsSupported :
      (deploy : Option EvidenceEvent) (failures : List EvidenceEvent)
      → OfSome IsRelevant deploy
      → All IsRelevant failures
      → All IsSupported (deployment_hypothesis lib deploy failures)
  deployment-IsSupported none failures d f = tt
  deployment-IsSupported (some deploy) failures d f =
      correlated-IsSupported deploy (find (λ x. leb deploy.timestamp x.timestamp) failures) d
        (OfSome-find IsRelevant _ failures f)

  crashloop-IsSupported :
      (es : List EvidenceEvent) → All IsRelevant es → All IsSupported (crashloop_hypothesis lib es)
  unfolding mentions take
  crashloop-IsSupported [] h = tt
  crashloop-IsSupported (e ∷ es) h = (((sources 4 (e ∷ es) h, refl), refl), tt)

  readiness-IsSupported :
      (deploy : Option EvidenceEvent) (es : List EvidenceEvent)
      → OfSome IsRelevant deploy
      → All IsRelevant es
      → All IsSupported (readiness_hypothesis lib deploy es)
  unfolding mentions
  readiness-IsSupported none es d h = tt
  readiness-IsSupported (some deploy) es d h =
      elim (Bool-cases (any (λ f. leb deploy.timestamp f.timestamp) es)) [
        | inl after ↦ rw after ((((source deploy d, sources 3 es h), refl), refl), tt)
        | inr before ↦ rw before tt
      ]

  oom-IsSupported :
      (es : List EvidenceEvent) → All IsRelevant es → All IsSupported (oom_hypothesis lib es)
  unfolding mentions take
  oom-IsSupported [] h = tt
  oom-IsSupported (e ∷ []) h = tt
  oom-IsSupported (e ∷ f ∷ es) h = (((sources 4 (e ∷ f ∷ es) h, refl), refl), tt)

  abbrev analysis : IncidentAnalysis lib
  analysis = analyze_incident lib events service

  analysis-IsSupported : All IsSupported analysis.hypotheses
  unfolding analyze_incident
  analysis-IsSupported =
      let relevant = timeline_of events service in
      let all = timeline_of-IsRelevant in
      let deploy =
        OfSome-last IsRelevant (keep is_deployment relevant)
          (All-keep IsRelevant is_deployment relevant all) in
      All-sort_by IsSupported _ (found_in lib relevant) (
        All-append IsSupported
          (deployment_hypothesis lib (last (keep is_deployment relevant))
            (keep is_failure relevant))
          _
          (deployment-IsSupported (last (keep is_deployment relevant)) (keep is_failure relevant)
            deploy (All-keep IsRelevant is_failure relevant all))
          (All-append IsSupported (crashloop_hypothesis lib (keep is_crashloop relevant)) _
            (crashloop-IsSupported (keep is_crashloop relevant)
              (All-keep IsRelevant is_crashloop relevant all))
            (All-append IsSupported
              (readiness_hypothesis lib (last (keep is_deployment relevant))
                (keep is_readiness relevant))
              _
              (readiness-IsSupported (last (keep is_deployment relevant))
                (keep is_readiness relevant) deploy (All-keep IsRelevant is_readiness relevant all))
              (oom-IsSupported (keep is_oom relevant) (All-keep IsRelevant is_oom relevant all)))))

  OfSome-or_next :
      (Q : RemediationPlan lib → Type 0) (first next : Option (RemediationPlan lib))
      → OfSome Q first
      → OfSome Q next
      → OfSome Q (or_next lib first next)
  OfSome-or_next Q none next f n = n
  OfSome-or_next Q (some plan) next f n = f

  -- What the planner takes from a list of hypotheses.
  chosen_by :
      (choose : Hypothesis lib → Option (RemediationPlan lib)) (Q : RemediationPlan lib → Type 0)
      (hypotheses : List (Hypothesis lib))
      → All (λ h. OfSome Q (choose h)) hypotheses
      → OfSome Q (first_plan lib choose hypotheses)
  chosen_by choose Q [] all = tt
  chosen_by choose Q (h ∷ hypotheses) all =
      OfSome-or_next Q (choose h) _ all.0 (chosen_by choose Q hypotheses all.1)

  -- A plan with evidence for a runbook of the shipped catalog.
  pub record IsGrounded (plan : RemediationPlan lib) : Type 0 where
    pub runbook : Runbook
    pub registered : get keyed plan.runbook_id ≡ ok runbook
    pub evidence : All Sourced plan.evidence_ids
    pub evidenced : is_empty plan.evidence_ids ≡ false

  known :
      (h : Hypothesis lib) (runbook_id reason : String) (runbook : Runbook)
      → get keyed runbook_id ≡ ok runbook
      → IsEvidence h.evidence_ids
      → IsGrounded (plan_for lib runbook_id reason h)
  known h runbook_id reason runbook found (ids, some_) = record {
    runbook = runbook;
    registered = found;
    evidence = ids;
    evidenced = some_;
  }

  specific-IsGrounded :
      (h : Hypothesis lib) → IsSupported h → OfSome IsGrounded (specific_plan lib h)
  unfolding get
  specific-IsGrounded h (ids, _) = elim (Bool-cases (mentions "crashloopbackoff" h.title)) [
    | inl crash ↦ rw crash (known h "aks.restart.crashloop" _ _ refl ids)
    | inr other ↦ elim (Bool-cases (mentions "readiness regression" h.title)) [
      | inl ready ↦ rw (other, ready) (known h "aks.rollback.readiness" _ _ refl ids)
      | inr third ↦
          elim (Bool-cases (mentions "oomkilled" h.title || mentions "memory pressure" h.title)) [
            | inl memory ↦ rw (other, third, memory) (known h "aks.restart.oom" _ _ refl ids)
            | inr none_ ↦ rw (other, third, none_) tt
          ]
    ]
  ]

  generic-IsGrounded : (h : Hypothesis lib) → IsSupported h → OfSome IsGrounded (generic_plan lib h)
  unfolding get
  generic-IsGrounded h (ids, _) =
      elim (Bool-cases (mentions "deployment" h.title && mentions "incident" h.title)) [
        | inl release ↦ rw release (known h "aks.rollout.undo" _ _ refl ids)
        | inr other ↦ rw other tt
      ]

  either_is_chosen :
      (a b next_a next_b : Option (RemediationPlan lib))
      → is_some (or_next lib a b) ≡ true
      → is_some (or_next lib (or_next lib a next_a) (or_next lib b next_b)) ≡ true
  either_is_chosen (some p) b next_a next_b h = refl
  either_is_chosen none (some p) none next_b h = refl
  either_is_chosen none (some p) (some q) next_b h = refl
  either_is_chosen none none next_a next_b h = cc

  none_is_chosen :
      (hypotheses : List (Hypothesis lib))
      → All IsSupported hypotheses
      → or_next lib
          (first_plan lib (specific_plan lib) hypotheses)
          (first_plan lib (generic_plan lib) hypotheses)
        ≡ none
      → hypotheses ≡ []
  none_is_chosen [] all h = refl
  none_is_chosen (x ∷ xs) all h =
      let chosen =
        either_is_chosen (specific_plan lib x) (generic_plan lib x)
          (first_plan lib (specific_plan lib) xs) (first_plan lib (generic_plan lib) xs) all.0.1 in
      let clash : true ≡ false = sym chosen ∙ ap is_some h in cc

  of_some :
      (Q : RemediationPlan lib → Type 0) (o : Option (RemediationPlan lib))
      (plan : RemediationPlan lib)
      → OfSome Q o
      → o ≡ some plan
      → Q plan
  of_some Q none plan q h = cc
  of_some Q (some x) plan q h = let same : x ≡ plan = cc in rw (sym same) q

  no_hypotheses :
      (hypotheses : List (Hypothesis lib))
      → hypotheses ≡ []
      → or_next lib
          (first_plan lib (specific_plan lib) hypotheses)
          (first_plan lib (generic_plan lib) hypotheses)
        ≡ none
  no_hypotheses hypotheses h = rw h refl

  -- A plan made from the analysis of an incident names a runbook of the shipped catalog, and its evidence,
  -- which is not empty, is of events of the service. No plan is made exactly where the analysis has no
  -- hypothesis.
  pub plan-IsGrounded :
      ((plan : RemediationPlan lib) → plan_from_incident lib analysis ≡ some plan → IsGrounded plan)
      × ((plan_from_incident lib analysis ≡ none) ↔ (analysis.hypotheses ≡ []))
  unfolding plan_from_incident
  plan-IsGrounded =
      let hypotheses = analysis.hypotheses in
      let all = analysis-IsSupported in
      let chosen =
        OfSome-or_next IsGrounded (first_plan lib (specific_plan lib) hypotheses)
          (first_plan lib (generic_plan lib) hypotheses)
          (chosen_by (specific_plan lib) IsGrounded hypotheses
            (All-imp hypotheses specific-IsGrounded all))
          (chosen_by (generic_plan lib) IsGrounded hypotheses
            (All-imp hypotheses generic-IsGrounded all)) in
      (
        λ plan made. of_some IsGrounded _ plan chosen made,
        (none_is_chosen hypotheses all, no_hypotheses hypotheses),
      )
