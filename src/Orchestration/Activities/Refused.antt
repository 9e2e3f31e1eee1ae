-- ===== src/Orchestration/Activities/Refused.antt =====
-- The errors of the activities of orchestration/control_plane_activities.py that say that an event was
-- refused, and which steps raise no such error.
use engineering_intelligence.Base.{
  ◌≡◌, refl, inl, inr, String, Bool, true, false, Option, none, some, str_eq, Bool-cases,
}
use engineering_intelligence.Base.Result.{Result, ok, raised}
use engineering_intelligence.Base.Stateful.{continue, ◌>>◌, refuse_if}
use engineering_intelligence.State.Lifecycle.{WorkflowLifecycleEvent}
use engineering_intelligence.State.Audit.{AuditEvent, Log}
use engineering_intelligence.State.Store.{Tables, WorkflowTransitionResult}
use engineering_intelligence.State.Store.Refusals.{is_invalid}
use engineering_intelligence.Orchestration.Activities.{
  Stores, store_error, export_incomplete, unverifiable, with_hash, after_export,
}
use engineering_intelligence.Orchestration.Activities.Steps.{
  StepError, disabled, no_step_time, no_evidence, no_policy, unknown_status, invalid_request,
  bad_evidence, provider_failed, loop_failed, not_persisted, Step, lift, or_raise,
}

-- The error says that an event was not valid, or that a status has no name in the lifecycle.
abbrev pub is_refusal : StepError → Bool
is_refusal disabled = false
is_refusal no_step_time = false
is_refusal no_evidence = false
is_refusal no_policy = false
is_refusal unknown_status = true
is_refusal (invalid_request e) = false
is_refusal (bad_evidence e) = false
is_refusal (provider_failed e) = false
is_refusal (loop_failed e) = false
is_refusal (not_persisted (store_error e)) = is_invalid e
is_refusal (not_persisted export_incomplete) = false
is_refusal (not_persisted unverifiable) = false

abbrev pub is_refused : {A : Type 0} → Result StepError A → Bool
is_refused (ok a) = false
is_refused (raised e) = is_refusal e

module _ {A B : Type 0} (rest : A → Step B) (s : Stores) where
  pub by_lift :
      {E : Type 0} (name : E → StepError) (r : Result E A)
      → ((e : E) → is_refusal (name e) ≡ false)
      → ((a : A) → r ≡ ok a → is_refused (rest a s).0 ≡ false)
      → is_refused (continue (lift name r s) rest).0 ≡ false
  by_lift name (ok a) fine goes = goes a refl
  by_lift name (raised e) fine goes = fine e

  pub by_option :
      (e : StepError) (o : Option A)
      → is_refusal e ≡ false
      → ((a : A) → is_refused (rest a s).0 ≡ false)
      → is_refused (continue (or_raise e o s) rest).0 ≡ false
  by_option e none fine goes = fine
  by_option e (some a) fine goes = goes a

  pub by_some :
      (e : StepError) (o : Option A) (a : A)
      → o ≡ some a
      → is_refused (rest a s).0 ≡ false
      → is_refused (continue (or_raise e o s) rest).0 ≡ false
  by_some e o a found goes = rw found goes

pub by_guard :
    {B : Type 0} (c : Bool) (e : StepError) (rest : Step B) (s : Stores)
    → is_refusal e ≡ false
    → is_refused (rest s).0 ≡ false
    → is_refused ((refuse_if c e >> rest) s).0 ≡ false
by_guard true e rest s fine goes = fine
by_guard false e rest s fine goes = goes

pub by_answer :
    {A B : Type 0} (answer : Result StepError A × Stores) (rest : A → Step B)
    → is_refused answer.0 ≡ false
    → ((a : A) (s : Stores) → answer ≡ (ok a, s) → is_refused (rest a s).0 ≡ false)
    → is_refused (continue answer rest).0 ≡ false
by_answer (ok a, s) rest fine goes = goes a s refl
by_answer (raised e, s) rest fine goes = fine

pub lifted :
    {E A : Type 0} (name : E → StepError) (r : Result E A) (s : Stores) {a : A} {after : Stores}
    → lift name r s ≡ (ok a, after)
    → (r ≡ ok a) × (s ≡ after)
lifted name (ok a) s h = (cc, cc)
lifted name (raised e) s h = cc

pub paired : {X Y : Type 0} (p : X × Y) {x : X} {y : Y} → p.0 ≡ x → p.1 ≡ y → p ≡ (x, y)
paired (a, b) h k = rw (h, k) refl

with_hash_fine :
    (event : WorkflowLifecycleEvent) (transition : WorkflowTransitionResult) (hash : Option String)
    (s : Stores)
    → is_refused (lift not_persisted (with_hash event transition hash) s).0 ≡ false
with_hash_fine event transition none s = refl
with_hash_fine event transition (some hash) s = elim (Bool-cases (str_eq hash "")) [
  | inl blank ↦ rw blank refl
  | inr given ↦ rw given refl
]

pub after_export_fine :
    (event : WorkflowLifecycleEvent) (transition : WorkflowTransitionResult) (tables : Tables)
    (exported : Result String AuditEvent × Log)
    → is_refused
        (lift not_persisted
          (after_export event transition tables exported).0
          (after_export event transition tables exported).1).0
      ≡ false
after_export_fine event transition tables (raised why, log) = refl
after_export_fine event transition tables (ok final, log) =
    with_hash_fine event transition final.event_hash _
