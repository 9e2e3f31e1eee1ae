-- ===== src/State/Audit/Samples.antt =====
-- Data with which the audit log is tested, where the hash of a text is the text.
use engineering_intelligence.Base.{◌≡◌, refl, sym, ap, ◌∙◌, String, Option, none, some, [], ◌∷◌}
use engineering_intelligence.Base.Dict.{Dict}
use engineering_intelligence.State.Payload.{Json, text, null}
use engineering_intelligence.State.Store.Codec.{dumps_fields, loads_fields, loads-dumps}
use engineering_intelligence.State.Audit.{AuditEvent, Library, Log, append, canonical}
use engineering_intelligence.State.Audit.Chain.{IsLossless}
use engineering_intelligence.State.Audit.Tamper.{IsCollisionFree, content}

abbrev pub optional : Option String → Json
optional none = null
optional (some s) = text s

abbrev pub fields : AuditEvent → Dict Json
fields e =
    ("event_id", text e.event_id)
    ∷ ("correlation_id", text e.correlation_id)
    ∷ ("actor", text e.actor)
    ∷ ("action", text e.action)
    ∷ ("resource", text e.resource)
    ∷ ("payload", e.payload)
    ∷ ("occurred_at", text e.occurred_at)
    ∷ ("previous_hash", optional e.previous_hash)
    ∷ ("event_hash", optional e.event_hash)
    ∷ []

abbrev pub text_of : Json → String
text_of (text s) = s
text_of _ = ""

abbrev pub optional_of : Json → Option String
optional_of (text s) = some s
optional_of _ = none

optional_of-optional : (o : Option String) → optional_of (optional o) ≡ o
optional_of-optional none = refl
optional_of-optional (some s) = refl

abbrev pub event_of : Option (Dict Json) → Option AuditEvent
event_of (some (a ∷ b ∷ c ∷ d ∷ e ∷ f ∷ g ∷ h ∷ i ∷ [])) = some (record {
  event_id = text_of a.1;
  correlation_id = text_of b.1;
  actor = text_of c.1;
  action = text_of d.1;
  resource = text_of e.1;
  payload = f.1;
  occurred_at = text_of g.1;
  previous_hash = optional_of h.1;
  event_hash = optional_of i.1;
})
event_of _ = none

event_of-fields : (e : AuditEvent) → event_of (some (fields e)) ≡ some e
event_of-fields e =
    rw (optional_of-optional e.previous_hash, optional_of-optional e.event_hash) refl

abbrev pub lib : Library
lib = record {
  sha256 = λ s. s;
  compact = λ e. dumps_fields (fields e);
  dumps = λ e. dumps_fields (fields e);
  loads = λ s. event_of (loads_fields s);
}

pub lossless : IsLossless lib
lossless e = ap event_of (loads-dumps (fields e)) ∙ event_of-fields e

pub some_content : (e e' : AuditEvent) → some e ≡ some e' → e ≡ e'
some_content e e' h = cc

pub collision_free : IsCollisionFree lib
collision_free e e' h =
    some_content (content e) (content e')
      (sym (lossless (content e)) ∙ ap lib.loads h ∙ lossless (content e'))

abbrev pub diagnose : AuditEvent
diagnose = record {
  event_id = "evt-1";
  correlation_id = "corr-1";
  actor = "agent:incident";
  action = "diagnose";
  resource = "payments";
  payload = text "trace-1";
  occurred_at = "2026-01-01T00:00:00+00:00";
  previous_hash = none;
  event_hash = none;
}

abbrev pub chained : AuditEvent
chained = record diagnose { event_hash = some (canonical lib diagnose) }

abbrev pub log : Log
log = (append lib diagnose []).1
