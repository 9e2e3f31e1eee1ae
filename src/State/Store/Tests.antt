-- ===== src/State/Store/Tests.antt =====
-- The state store at concrete inputs.
use engineering_intelligence.State.Store.Refinement.{
  Call, read, write, stored, specified, answers, answers_refine,
}
use engineering_intelligence.Base.{
  ◌∷◌, List, [], ℕ, ◌≡◌, refl, true, false, none, some, inl, Option,
}
use engineering_intelligence.Base.Result.{Result, ok, raised}
use engineering_intelligence.State.Models.{WorkflowRecord, planned}
use engineering_intelligence.State.Lifecycle.{
  WorkflowLifecycleEvent, already_exists, is_identifier, is_plan_hash, validate, apply_to,
  apply_from, created,
}
use engineering_intelligence.State.Payload.{workflow_fields, workflow_of}
use engineering_intelligence.State.Store.{
  Tables, StoreError, version_conflict, contract, key_reused, unexpected_version, row_to_workflow,
  get_workflow, write_workflow, put_workflow, assert_expected, receipt_for, receipt_of_event,
  insert_receipt, new_transition, transition, apply_workflow_event,
}
use engineering_intelligence.State.Store.Codec.{dumps_fields, loads_fields, loads-dumps}
use engineering_intelligence.State.Store.Versions.{put_workflow-conflict}
use engineering_intelligence.State.Store.Replay.{retry_replays, reused_key_raises, result_of}
use engineering_intelligence.State.Store.Advance.{
  IsKeyed, Advanced, accepted_event_advances, Reached-IsKeyed, opened, sent,
}
use engineering_intelligence.State.Store.Samples.{
  lib, create, empty, first, outcome, create_is_accepted,
}

retry_replays_example :
    apply_workflow_event lib create outcome.1 ≡ (ok (result_of true create first), outcome.1)
retry_replays_example =
    retry_replays lib loads-dumps create empty (result_of false create first) outcome.1
      create_is_accepted

reused_key_raises_example :
    apply_workflow_event lib (record create { event_id = "event-9" }) outcome.1
    ≡ (raised (version_conflict key_reused), outcome.1)
reused_key_raises_example =
    reused_key_raises lib create (record create { event_id = "event-9" }) empty
      (result_of false create first) outcome.1 create_is_accepted
      (unfold validate is_identifier is_plan_hash in refl) refl refl (inl (λ same. cc))

empty-IsKeyed : IsKeyed lib empty
empty-IsKeyed = Reached-IsKeyed lib loads-dumps opened

accepted_event_advances_example : Advanced lib loads-dumps create empty first outcome.1
accepted_event_advances_example =
    accepted_event_advances lib loads-dumps create empty (result_of false create first) outcome.1
      empty-IsKeyed create_is_accepted refl

Reached-IsKeyed_example : IsKeyed lib outcome.1
Reached-IsKeyed_example = Reached-IsKeyed lib loads-dumps (sent create opened)

abbrev again : WorkflowLifecycleEvent
again = record create { event_id = "event-9"; idempotency_key = "create-9" }

create_again :
    apply_workflow_event lib again outcome.1
    ≡ (raised (version_conflict (contract already_exists)), outcome.1)
unfolding apply_workflow_event transition new_transition insert_receipt receipt_for receipt_of_event
    get_workflow row_to_workflow workflow_of workflow_fields dumps_fields loads_fields
    assert_expected apply_to validate is_identifier is_plan_hash apply_from created write_workflow
create_again = refl

abbrev written : Result StoreError WorkflowRecord × Tables
written = put_workflow lib (record first { version = 9 }) none empty

first_write : written ≡ (ok first, written.1)
unfolding put_workflow assert_expected write_workflow
first_write = refl

abbrev no_version : Option ℕ
no_version = none

abbrev rewritten : Result StoreError WorkflowRecord × Tables
rewritten = put_workflow lib first (some 1) written.1

second_write : rewritten ≡ (ok (record first { version = 2 }), rewritten.1)
unfolding put_workflow assert_expected write_workflow
second_write = refl

put_workflow-conflict_example :
    put_workflow lib (record first { status = planned }) (some 1) rewritten.1
    ≡ (raised (version_conflict (unexpected_version (some 2) 1)), rewritten.1)
put_workflow-conflict_example =
    put_workflow-conflict lib first (record first { version = 2 })
      (record first { status = planned }) 1 written.1 rewritten.1 refl second_write

abbrev calls : List Call
calls = write first none ∷ read "wf-1" ∷ write first (some 5) ∷ read "wf-2" ∷ []

answers_refine_example : answers (stored lib) calls empty ≡ answers specified calls (λ id. none)
answers_refine_example = answers_refine lib loads-dumps calls empty (λ id. none) (λ id. refl)
