-- ===== src/State/Audit/Tests.antt =====
-- The audit log at concrete inputs, where the hash of a text is the text.
use engineering_intelligence.Base.{◌≡◌, refl, sym, ap, ◌∙◌, true, false, [], ◌∷◌}
use engineering_intelligence.Base.Result.{ok, raised}
use engineering_intelligence.State.Store.Codec.{loads_fields}
use engineering_intelligence.State.Audit.{append, verify_chain, last_hash, conflict}
use engineering_intelligence.State.Audit.Chain.{
  append-verify_chain, append-append, reused_id_conflicts,
}
use engineering_intelligence.State.Audit.Tamper.{contents, newest_first, last_hash_fixes_log}
use engineering_intelligence.State.Audit.Samples.{
  lib, lossless, some_content, collision_free, diagnose, chained, log,
}

append_first : append lib diagnose [] ≡ (ok chained, log)
unfolding append last_hash
append_first = refl

log_verifies : verify_chain lib log ≡ true
log_verifies = append-verify_chain lib lossless diagnose [] (unfold verify_chain in refl)

append-verify_chain_example : verify_chain lib (append lib diagnose []).1 ≡ true
append-verify_chain_example =
    append-verify_chain lib lossless diagnose [] (unfold verify_chain in refl)

append-append_example : append lib diagnose log ≡ (ok chained, log)
append-append_example = append-append lib lossless diagnose chained [] log append_first

tampered :
    verify_chain lib (record { event_id = "evt-1"; payload = "{}"; event_hash = "" } ∷ []) ≡ false
unfolding verify_chain loads_fields
tampered = refl

approve_differs : diagnose.action ≡ (record diagnose { action = "approve" }).action → ⊥
approve_differs h = cc

identity_differs : lib.compact diagnose ≡ lib.compact (record diagnose { action = "approve" }) → ⊥
identity_differs h = approve_differs (
    ap (λ e. e.action)
      (some_content diagnose (record diagnose { action = "approve" })
        (sym (lossless diagnose)
          ∙ ap lib.loads h
          ∙ lossless (record diagnose { action = "approve" }))))

reused_id_conflicts_example :
    append lib (record diagnose { action = "approve" }) log ≡ (raised conflict, log)
reused_id_conflicts_example =
    reused_id_conflicts lib lossless diagnose (record diagnose { action = "approve" }) chained []
      log append_first refl identity_differs

last_hash_fixes_log_example : contents lib (newest_first log) ≡ contents lib (newest_first log)
last_hash_fixes_log_example =
    last_hash_fixes_log lib collision_free log log log_verifies log_verifies refl
