-- ===== src/Remediation/Executor/Authority.antt =====
-- What must hold before remediation/executor.py lets an action run.
use engineering_intelligence.Base.{
  ℕ, ◌≤◌, ◌<◌, ◌≡◌, refl, ◌∙◌, inl, inr, String, true, false, Option, none, some, [], ◌∷◌, arith,
  eq_iff, Option-cases,
}
use engineering_intelligence.Base.Result.{ok, Result-cases}
use engineering_intelligence.Resilience.Scope.{
  Library, CertificationScope, parse_instant, scope_hash,
}
use engineering_intelligence.Resilience.Certification.{
  L4CertificationRecord, certification_refusal, material_inputs_hash_for, certification_scope_for,
}
use engineering_intelligence.Remediation.Catalog.{AutonomyLevel, Runbook, RunbookCatalog, rank, get}
use engineering_intelligence.Remediation.Opa.{
  EvaluatedPolicyDecision, PolicyControlState, as_policy_decision, AutonomyContext, evaluate,
}
use engineering_intelligence.Remediation.Opa.Grants.{IsAuthorized, reviewed, evaluate-IsAuthorized}
use engineering_intelligence.Remediation.Lock.{Leases}
use engineering_intelligence.Remediation.Adapter.{ActionAdapter, consulted, executed, Made}
use engineering_intelligence.Remediation.Executor.{
  Host, ControlLoopCall, PolicyEvaluator, execute_control_loop, decided, late_refusal, preflight,
  acquire_concurrency_lease, resolve_level, switch_level, autonomy_kill_switch_engaged,
  autonomy_context, consult, consult_with, moment, or_default, certification_refusal_for,
}

module _ (lib : Library) (adapter : ActionAdapter) (call : ControlLoopCall) (runbook : Runbook)
    (level : AutonomyLevel) (evaluated : EvaluatedPolicyDecision) where
  decided_executes :
      (host : Host) (id : String)
      → ¬ Made (executed id) host.trace
      → Made (executed id) (decided lib adapter call runbook level evaluated host).1.trace
      → (evaluated.allowed ≡ true)
        × (late_refusal lib level call runbook evaluated.policy_revision ≡ none)
  unfolding decided preflight acquire_concurrency_lease as_policy_decision
  decided_executes host id fresh made = ground arith

-- The certification that an L4 action needs: the record presented, for the scope of the request and
-- the material inputs under the policy revision that authorized it, unexpired.
pub record IsCertified (lib : Library) (call : ControlLoopCall) (runbook : Runbook)
    (revision : String) : Type 0 where
  pub certificate : L4CertificationRecord
  pub presented : call.certification ≡ some certificate
  pub scope : CertificationScope
  pub certifiable : certification_scope_for call.policy call.request runbook ≡ ok scope
  pub expires : ℕ
  pub readable : parse_instant lib certificate.expires_on ≡ some expires
  pub unexpired : moment call < expires
  pub same_scope : certificate.scope_hash ≡ scope_hash lib scope
  pub same_inputs : certificate.inputs_hash ≡ material_inputs_hash_for lib scope runbook revision

IsCertified-of_refusal :
    (lib : Library) (call : ControlLoopCall) (runbook : Runbook) (revision : String)
    → certification_refusal_for lib call runbook revision ≡ none
    → IsCertified lib call runbook revision
unfolding certification_refusal_for certification_refusal
IsCertified-of_refusal lib call runbook revision e =
    elim (Result-cases (certification_scope_for call.policy call.request runbook)) [
      | inl (scope, certifiable) ↦ elim (Option-cases call.certification) [
        | inl absent ↦ absurd (ground arith)
        | inr (r, presented) ↦ elim (Option-cases (parse_instant lib r.expires_on)) [
          | inl unreadable ↦ absurd (ground arith)
          | inr (expires, readable) ↦ record {
            certificate = r;
            presented = presented;
            scope = scope;
            certifiable = certifiable;
            expires = expires;
            readable = readable;
            unexpired = ground arith;
            same_scope = ground (arith, eq_iff r.scope_hash (scope_hash lib scope));
            same_inputs = ground (
              arith,
              eq_iff r.scope_hash (scope_hash lib scope),
              eq_iff r.inputs_hash (material_inputs_hash_for lib scope runbook revision),
            );
          }
        ]
      ]
      | inr (blank, uncertifiable) ↦ absurd (ground arith)
    ]

-- The level that a call runs at, and the context that it presents to the evaluator.
abbrev pub level_for : ControlLoopCall → AutonomyLevel
level_for call = (resolve_level call.autonomy_level call.policy.level).0

abbrev pub decision_for : Library → ControlLoopCall → Runbook → EvaluatedPolicyDecision
decision_for lib call runbook =
    consult_with call.evaluator lib runbook call
      (autonomy_context lib (level_for call) call runbook) []

pub record HasAuthority (lib : Library) (catalog : RunbookCatalog) (call : ControlLoopCall)
    : Type 0 where
  pub runbook : Runbook
  pub known : get catalog call.request.runbook_id ≡ ok runbook
  pub switch_off :
      3 ≤ switch_level call.policy.level call.autonomy_level
      → autonomy_kill_switch_engaged call.environ ≡ false
  pub level_accepted : (resolve_level call.autonomy_level call.policy.level).1 ≡ none
  pub allowed : (decision_for lib call runbook).allowed ≡ true
  pub certified :
      4 ≤ rank (level_for call)
      → IsCertified lib call runbook (decision_for lib call runbook).policy_revision

abbrev pub started : Option Leases → Host
started leases = record { trace = []; leases = leases }

executes_decided :
    (lib : Library) (adapter : ActionAdapter) (catalog : RunbookCatalog) (call : ControlLoopCall)
    (leases : Option Leases) (id : String) (runbook : Runbook)
    → get catalog call.request.runbook_id ≡ ok runbook
    → Made (executed id) (execute_control_loop lib adapter catalog call (started leases)).1.trace
    → Made
        (executed id)
        (decided lib adapter call runbook
          (level_for call)
          (decision_for lib call runbook)
          (record { trace = consulted ∷ []; leases = leases })).1.trace
      × (3 ≤ switch_level call.policy.level call.autonomy_level
          → autonomy_kill_switch_engaged call.environ ≡ false)
      × ((resolve_level call.autonomy_level call.policy.level).1 ≡ none)
unfolding execute_control_loop consult
executes_decided lib adapter catalog call leases id runbook known made = ground arith

-- If the control loop executes anything at all, from a host with no earlier calls, then the runbook is
-- in the catalog, the kill switch is off for its level, the claimed level was accepted, the evaluator
-- allowed the request, and at L4 an unexpired certification for the request's scope and its current
-- material inputs was presented.
pub execution-HasAuthority :
    (lib : Library) (adapter : ActionAdapter) (catalog : RunbookCatalog) (call : ControlLoopCall)
    (leases : Option Leases) (id : String)
    → Made (executed id) (execute_control_loop lib adapter catalog call (started leases)).1.trace
    → HasAuthority lib catalog call
execution-HasAuthority lib adapter catalog call leases id made =
    elim (Result-cases (get catalog call.request.runbook_id)) [
      | inl (runbook, known) ↦
          let (later, off, accepted) =
            executes_decided lib adapter catalog call leases id runbook known made in
          let (allowed, unrefused) =
            decided_executes lib adapter call runbook (level_for call)
              (decision_for lib call runbook) (record { trace = consulted ∷ []; leases = leases })
              id (λ m. ground arith) later in
          record {
            runbook = runbook;
            known = known;
            switch_off = off;
            level_accepted = accepted;
            allowed = allowed;
            certified = λ autonomous.
                IsCertified-of_refusal lib call runbook
                  (decision_for lib call runbook).policy_revision
                  (unfold late_refusal in ground (arith, unrefused));
          }
      | inr (unknown, missing) ↦ absurd (unfold execute_control_loop in ground arith)
    ]

abbrev pub control_for : ControlLoopCall → PolicyControlState
control_for call =
    or_default (record { audit_available = true; verification_defined = true }) call.control

consults_locally :
    (lib : Library) (runbook : Runbook) (call : ControlLoopCall) (context : AutonomyContext)
    (evaluator : Option PolicyEvaluator)
    → evaluator ≡ none
    → (evaluate lib
        (lib.isoformat call.clock)
        runbook
        call.policy
        call.request
        call.approval_verified
        (control_for call)
        (some context)).allowed
      ≡ (consult_with evaluator lib runbook call context []).allowed
unfolding consult_with
consults_locally lib runbook call context none local = refl
consults_locally lib runbook call context (some evaluator) local = cc

-- Where no external evaluator is configured, an execution meets every condition of the local
-- reference evaluator: scope, blast radius, level, certified runbook, verified approval at L3, error
-- budget at L4, and both controls.
pub local_execution-IsAuthorized :
    (lib : Library) (adapter : ActionAdapter) (catalog : RunbookCatalog) (call : ControlLoopCall)
    (leases : Option Leases) (id : String)
    → call.evaluator ≡ none
    → Made (executed id) (execute_control_loop lib adapter catalog call (started leases)).1.trace
    → (runbook : Runbook) × (get catalog call.request.runbook_id ≡ ok runbook)
      × IsAuthorized lib runbook call.policy call.request call.approval_verified
          (control_for call)
          (reviewed call.policy (autonomy_context lib (level_for call) call runbook))
local_execution-IsAuthorized lib adapter catalog call leases id local made =
    let authority = execution-HasAuthority lib adapter catalog call leases id made in
    let runbook = authority.runbook in
    let context = autonomy_context lib (level_for call) call runbook in
    (
      runbook,
      authority.known,
      (evaluate-IsAuthorized lib (lib.isoformat call.clock) runbook call.policy call.request
            call.approval_verified (control_for call) context).0
          (consults_locally lib runbook call context call.evaluator local ∙ authority.allowed),
    )
