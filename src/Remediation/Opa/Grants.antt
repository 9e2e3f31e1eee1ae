-- ===== src/Remediation/Opa/Grants.antt =====
-- What the local reference evaluator of remediation/opa_policy.py authorizes, stated without its
-- order of checks.
use engineering_intelligence.Base.{
  ℕ, ◌≤◌, ◌<◌, ◌≡◌, refl, ◌↔◌, inl, inr, String, Bool, true, false, none, some, arith, eq_iff,
  contains_iff, Member, not, Bool-cases, Option-cases, leb,
}
use engineering_intelligence.Base.Int.{pos, ◌≤ℤ◌}
use engineering_intelligence.Base.Text.{is_blank, reads_as_upper}
use engineering_intelligence.Resilience.Scope.{Library, parse_instant}
use engineering_intelligence.Remediation.Catalog.{Runbook, rank, AutonomyLevel, observe}
use engineering_intelligence.Remediation.Policy.{
  ServiceAutonomy, ActionRequest, authorize, lacks_token,
}
use engineering_intelligence.Remediation.Opa.{
  PolicyControlState, CertificationClaim, AutonomyContext, is_l4, effective_level,
  certification_denial, evaluate, level_text,
}

-- The claim names the requested scope and some inputs, and lapses after the evaluation time.
pub record Covers (lib : Library) (context : AutonomyContext) : Type 0 where
  pub claim : CertificationClaim
  pub presented : context.certification ≡ some claim
  pub now : ℕ
  pub evaluated_at : parse_instant lib context.now ≡ some now
  pub expires : ℕ
  pub lapses_at : parse_instant lib claim.expires_on ≡ some expires
  pub unexpired : now < expires
  pub scope_named : is_blank context.scope_hash ≡ false
  pub same_scope : claim.scope_hash ≡ context.scope_hash
  pub inputs_named : is_blank claim.inputs_hash ≡ false

-- A context is denied no certification exactly when it is not L4 or presents one that covers it.
pub certification_denial_sound :
    (lib : Library) (context : AutonomyContext)
    → certification_denial lib context ≡ none
    → is_l4 context ≡ true
    → Covers lib context
unfolding certification_denial
certification_denial_sound lib context e l4 = elim (Option-cases context.certification) [
  | inl absent ↦ ground arith
  | inr (claim, presented) ↦ elim (Option-cases (parse_instant lib context.now)) [
    | inl undated ↦ ground arith
    | inr (now, at) ↦ elim (Option-cases (parse_instant lib claim.expires_on)) [
      | inl unreadable ↦ ground arith
      | inr (expires, lapses) ↦ record {
        claim = claim;
        presented = presented;
        now = now;
        evaluated_at = at;
        expires = expires;
        lapses_at = lapses;
        unexpired = ground arith;
        scope_named = ground arith;
        same_scope = ground (arith, eq_iff claim.scope_hash context.scope_hash);
        inputs_named = ground arith;
      }
    ]
  ]
]

pub certification_denial_complete :
    (lib : Library) (context : AutonomyContext)
    → (is_l4 context ≡ true → Covers lib context)
    → certification_denial lib context ≡ none
unfolding certification_denial
certification_denial_complete lib context covers = elim (Bool-cases (is_l4 context)) [
  | inl l4 ↦ let c = covers l4 in ground (arith, eq_iff c.claim.scope_hash context.scope_hash)
  | inr lower ↦ rw lower
]

-- A context as the evaluator reads it: at the level of the reviewed policy.
abbrev pub reviewed : ServiceAutonomy → AutonomyContext → AutonomyContext
reviewed policy given = record given { policy_level = rank policy.level }

module _ (lib : Library) (runbook : Runbook) (policy : ServiceAutonomy) (request : ActionRequest)
    (approval_verified : Bool) (control : PolicyControlState) where
  -- Every condition of an authorization, for a context at the reviewed policy level.
  pub record IsAuthorized (context : AutonomyContext) : Type 0 where
    pub not_killed : policy.kill_switch ≡ false
    pub same_service : request.service ≡ policy.service
    pub same_environment : request.environment ≡ policy.environment
    pub environment_permitted : Member request.environment runbook.environments
    pub within_runbook : request.blast_radius ≤ℤ runbook.max_blast_radius
    pub within_policy : request.blast_radius ≤ℤ policy.max_blast_radius
    pub level_sufficient : rank runbook.required_level ≤ rank policy.level
    pub certified : Member runbook.id policy.certified_runbooks
    pub approved : effective_level context ≡ 3 → approval_verified ≡ true
    pub budget_left : 4 ≤ rank policy.level → ¬ (request.error_budget_remaining ≤ℤ pos 0)
    pub covered : is_l4 context ≡ true → Covers lib context
    pub audited : control.audit_available ≡ true
    pub verifiable : control.verification_defined ≡ true

  module _ (clock : String) (given : AutonomyContext) where
    evaluate_sound :
        (evaluate lib clock runbook policy request approval_verified control (some given)).allowed
          ≡ true
        → IsAuthorized (reviewed policy given)
    unfolding evaluate
    evaluate_sound e = record {
      not_killed = ground arith;
      same_service = ground (arith, eq_iff request.service policy.service);
      same_environment = ground (arith, eq_iff request.environment policy.environment);
      environment_permitted =
          (contains_iff request.environment runbook.environments).0 (ground arith);
      within_runbook = ground arith;
      within_policy = ground arith;
      level_sufficient = ground arith;
      certified = (contains_iff runbook.id policy.certified_runbooks).0 (ground arith);
      approved = λ supervised. ground arith;
      budget_left = λ autonomous. ground arith;
      covered = certification_denial_sound lib (reviewed policy given) (ground arith);
      audited = ground arith;
      verifiable = ground arith;
    }

    evaluate_complete :
        IsAuthorized (reviewed policy given)
        → (evaluate lib clock runbook policy request approval_verified control (some given)).allowed
          ≡ true
    unfolding evaluate
    evaluate_complete h = ground (
      arith,
      eq_iff request.service policy.service,
      eq_iff request.environment policy.environment,
      (contains_iff request.environment runbook.environments).1 h.environment_permitted,
      (contains_iff runbook.id policy.certified_runbooks).1 h.certified,
      certification_denial_complete lib (reviewed policy given) h.covered,
    )

-- For a context that the caller supplies, the local evaluator allows a request exactly when every
-- condition of `IsAuthorized` holds of that context at the reviewed policy level: scope, environment,
-- blast radius, level, runbook certification, approval at L3, error budget and an unexpired matching
-- certification at L4, and both controls. On every other input it refuses.
pub evaluate-IsAuthorized :
    (lib : Library) (clock : String) (runbook : Runbook) (policy : ServiceAutonomy)
    (request : ActionRequest) (approval_verified : Bool) (control : PolicyControlState)
    (given : AutonomyContext)
    → ((evaluate lib clock runbook policy request approval_verified control (some given)).allowed
        ≡ true)
      ↔ IsAuthorized lib runbook policy request approval_verified control (reviewed policy given)
evaluate-IsAuthorized lib clock runbook policy request approval_verified control given = (
  evaluate_sound lib runbook policy request approval_verified control clock given,
  evaluate_complete lib runbook policy request approval_verified control clock given,
)

-- A context made from the policy alone claims the policy's own level.
own_level : (level : AutonomyLevel) (clock : String) → AutonomyContext
own_level level clock = record {
  declared = some (level_text level);
  scope_hash = "";
  now = clock;
  certification = none;
  policy_level = rank level;
}

effective_level-own_level :
    (level : AutonomyLevel) (clock : String) → effective_level (own_level level clock) ≡ rank level
unfolding effective_level own_level reads_as_upper
effective_level-own_level observe clock = refl
effective_level-own_level _ clock = refl

is_l4-own_level :
    (level : AutonomyLevel) (clock : String) → is_l4 (own_level level clock) ≡ leb 4 (rank level)
unfolding is_l4 own_level reads_as_upper
is_l4-own_level observe clock = refl
is_l4-own_level _ clock = refl

certification_denial-own_level :
    (lib : Library) (level : AutonomyLevel) (clock : String)
    → rank level ≤ 3
    → certification_denial lib (own_level level clock) ≡ none
unfolding certification_denial
certification_denial-own_level lib level clock low = ground (arith, is_l4-own_level level clock)

-- Below L4, `authorize` and the local evaluator without a context allow the same requests, where the
-- approval is verified exactly if a token is present and both controls are available.
pub authorize-evaluate :
    (lib : Library) (clock : String) (runbook : Runbook) (policy : ServiceAutonomy)
    (request : ActionRequest) (control : PolicyControlState)
    → rank policy.level ≤ 3
    → control.audit_available ≡ true
    → control.verification_defined ≡ true
    → (authorize runbook policy request).allowed
      ≡ (evaluate lib clock runbook policy request
          (not (lacks_token request.approval_token))
          control
          none).allowed
unfolding evaluate authorize own_level
authorize-evaluate lib clock runbook policy request control low audited verifiable = ground (
  arith,
  effective_level-own_level policy.level clock,
  certification_denial-own_level lib policy.level clock low,
)
