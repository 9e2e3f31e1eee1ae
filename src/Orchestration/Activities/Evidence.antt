-- ===== src/Orchestration/Activities/Evidence.antt =====
-- The evidence of orchestration/control_plane_activities.py as JSON objects: `evidence_to_mapping`, and
-- `evidence_from_mapping` with its checks. `isoformat` and `fromisoformat` are datetime's.
use engineering_intelligence.Base.{
  ℕ, String, false, Option, none, some, List, [], ◌∷◌, ◌≡◌, refl, ◌↔◌, arith, str_eq, map,
  if◌then◌else◌,
}
use engineering_intelligence.Base.Int.{ℤ, pos, negsuc, ◌≤ℤ◌}
use engineering_intelligence.Base.Dict.{Dict, lookup}
use engineering_intelligence.Base.Result.{Result, ok, raised, ◌>>=◌, both_return}
use engineering_intelligence.Base.Text.{is_blank}
use engineering_intelligence.State.Payload.{Json, text, number, integer, texts, arrays}
use engineering_intelligence.Intelligence.Incidents.{
  EvidenceKind, EvidenceEvent, alert, metric, log, trace, k8s_event, deployment, incident,
}

pub record Clock : Type 0 where
  pub isoformat : ℕ → String
  pub fromisoformat : String → Option ℕ

-- The texts of `RemediationConfigurationError` on a mapping, and the `ValueError`s of what it calls.
pub data EvidenceError : Type 0 where
  blank : String → EvidenceError
  bad_severity bad_attributes unknown_kind bad_timestamp : EvidenceError

abbrev pub kind_value : EvidenceKind → String
kind_value alert = "alert"
kind_value metric = "metric"
kind_value log = "log"
kind_value trace = "trace"
kind_value k8s_event = "k8s_event"
kind_value deployment = "deployment"
kind_value incident = "incident"

-- `EvidenceKind(value)`
unfoldable pub kind_of : String → Result EvidenceError EvidenceKind
kind_of s =
    if str_eq s "alert"
    then ok alert
    else if str_eq s "metric"
    then ok metric
    else if str_eq s "log"
    then ok log
    else if str_eq s "trace"
    then ok trace
    else if str_eq s "k8s_event"
    then ok k8s_event
    else if str_eq s "deployment"
    then ok deployment
    else if str_eq s "incident"
    then ok incident
    else raised unknown_kind

abbrev pub pair : String × String → List String
pair (key, value) = key ∷ value ∷ []

unfoldable pub evidence_to_mapping : Clock → EvidenceEvent → Dict Json
evidence_to_mapping clock event =
    ("id", text event.id)
    ∷ ("kind", text (kind_value event.kind))
    ∷ ("service", text event.service)
    ∷ ("timestamp", text (clock.isoformat event.timestamp))
    ∷ ("summary", text event.summary)
    ∷ ("source", text event.source)
    ∷ ("severity", integer event.severity)
    ∷ ("attributes", arrays (map pair event.attributes))
    ∷ []

abbrev pub text_value : String → Option Json → Result EvidenceError String
text_value field (some (text s)) = if is_blank s then raised (blank field) else ok s
text_value field _ = raised (blank field)

-- `_required_text`
unfoldable pub required_text : Dict Json → String → Result EvidenceError String
required_text raw field = text_value field (lookup field raw)

-- `_non_negative_int(raw.get("severity", 1))`
abbrev pub non_negative_int : Option Json → Result EvidenceError ℤ
non_negative_int none = ok (pos 1)
non_negative_int (some (number n)) = ok (pos n)
non_negative_int (some (integer (pos n))) = ok (pos n)
non_negative_int (some _) = raised bad_severity

-- The loop of `_attribute_pairs`.
unfoldable pub pairs_of : List (List String) → Result EvidenceError (List (String × String))
pairs_of [] = ok []
pairs_of ((key ∷ value ∷ []) ∷ items) = do rest ← pairs_of items; ok ((key, value) ∷ rest)
pairs_of (_ ∷ items) = raised bad_attributes

-- `_attribute_pairs(raw.get("attributes", []))`; an item that is a text is no array of two.
abbrev pub attribute_pairs : Option Json → Result EvidenceError (List (String × String))
attribute_pairs none = ok []
attribute_pairs (some (texts [])) = ok []
attribute_pairs (some (arrays items)) = pairs_of items
attribute_pairs (some _) = raised bad_attributes

abbrev pub timestamp_of : Option ℕ → Result EvidenceError ℕ
timestamp_of none = raised bad_timestamp
timestamp_of (some t) = ok t

unfoldable pub evidence_from_mapping : Clock → Dict Json → Result EvidenceError EvidenceEvent
evidence_from_mapping clock raw = do
  attributes ← attribute_pairs (lookup "attributes" raw)
  id ← required_text raw "id"
  kind_text ← required_text raw "kind"
  kind ← kind_of kind_text
  service ← required_text raw "service"
  timestamp_text ← required_text raw "timestamp"
  timestamp ← timestamp_of (clock.fromisoformat timestamp_text)
  summary ← required_text raw "summary"
  source ← required_text raw "source"
  severity ← non_negative_int (lookup "severity" raw)
  ok (record {
    id = id;
    kind = kind;
    service = service;
    timestamp = timestamp;
    summary = summary;
    source = source;
    severity = severity;
    attributes = attributes;
  })

-- `[evidence_from_mapping(item) for item in evidence.evidence]`
unfoldable pub events_of : Clock → List (Dict Json) → Result EvidenceError (List EvidenceEvent)
unfolding evidence_from_mapping
events_of clock [] = ok []
events_of clock (raw ∷ raws) = do
  event ← evidence_from_mapping clock raw
  events ← events_of clock raws
  ok (event ∷ events)

pairs_of-pair :
    (attributes : List (String × String)) → pairs_of (map pair attributes) ≡ ok attributes
unfolding pairs_of
pairs_of-pair [] = refl
pairs_of-pair ((key, value) ∷ attributes) = rw (pairs_of-pair attributes) refl

kind_of-value : (kind : EvidenceKind) → kind_of (kind_value kind) ≡ ok kind
unfolding kind_of
kind_of-value alert = refl
kind_of-value metric = refl
kind_of-value log = refl
kind_of-value trace = refl
kind_of-value k8s_event = refl
kind_of-value deployment = refl
kind_of-value incident = refl

kind_is_not_blank : (kind : EvidenceKind) → is_blank (kind_value kind) ≡ false
unfolding is_blank
kind_is_not_blank alert = refl
kind_is_not_blank metric = refl
kind_is_not_blank log = refl
kind_is_not_blank trace = refl
kind_is_not_blank k8s_event = refl
kind_is_not_blank deployment = refl
kind_is_not_blank incident = refl

-- The printed instant is read back, and is not blank.
pub record IsFaithful (clock : Clock) : Type 0 where
  pub read_back : (t : ℕ) → clock.fromisoformat (clock.isoformat t) ≡ some t
  pub printed : (t : ℕ) → is_blank (clock.isoformat t) ≡ false

-- Of which evidence the texts are not blank and the severity is not negative.
pub record IsComplete (event : EvidenceEvent) : Type 0 where
  pub id : is_blank event.id ≡ false
  pub service : is_blank event.service ≡ false
  pub summary : is_blank event.summary ≡ false
  pub source : is_blank event.source ≡ false
  pub severity : pos 0 ≤ℤ event.severity

text_value-returned :
    (field s t : String) → text_value field (some (text s)) ≡ ok t → is_blank s ≡ false
text_value-returned field s t h = ground arith

non_negative :
    (severity : ℤ) → pos 0 ≤ℤ severity → non_negative_int (some (integer severity)) ≡ ok severity
non_negative (pos n) h = refl
non_negative (negsuc n) h = absurd (omega arith)

non_negative_int-returned :
    (severity read : ℤ) → non_negative_int (some (integer severity)) ≡ ok read → pos 0 ≤ℤ severity
non_negative_int-returned (pos n) read h = omega arith
non_negative_int-returned (negsuc n) read h = cc

module _ (clock : Clock) (faithful : IsFaithful clock) (event : EvidenceEvent) where
  complete_comes_back :
      IsComplete event → evidence_from_mapping clock (evidence_to_mapping clock event) ≡ ok event
  unfolding evidence_from_mapping evidence_to_mapping required_text
  complete_comes_back complete =
      rw
        (
          pairs_of-pair event.attributes,
          complete.id,
          kind_is_not_blank event.kind,
          kind_of-value event.kind,
          complete.service,
          faithful.printed event.timestamp,
          faithful.read_back event.timestamp,
          complete.summary,
          complete.source,
          non_negative event.severity complete.severity,
        )
        refl

  what_comes_back-IsComplete :
      evidence_from_mapping clock (evidence_to_mapping clock event) ≡ ok event → IsComplete event
  unfolding evidence_from_mapping evidence_to_mapping required_text
  what_comes_back-IsComplete h =
      let (attributes, h_0, rest_0) =
        both_return (attribute_pairs (some (arrays (map pair event.attributes)))) _ h in
      let (id, h_1, rest_1) = both_return (text_value "id" (some (text event.id))) _ rest_0 in
      let (kind_text, h_2, rest_2) =
        both_return (text_value "kind" (some (text (kind_value event.kind)))) _ rest_1 in
      let (kind, h_3, rest_3) = both_return (kind_of kind_text) _ rest_2 in
      let (service, h_4, rest_4) =
        both_return (text_value "service" (some (text event.service))) _ rest_3 in
      let (time, h_5, rest_5) =
        both_return (text_value "timestamp" (some (text (clock.isoformat event.timestamp)))) _
          rest_4 in
      let (timestamp, h_6, rest_6) =
        both_return (timestamp_of (clock.fromisoformat time)) _ rest_5 in
      let (summary, h_7, rest_7) =
        both_return (text_value "summary" (some (text event.summary))) _ rest_6 in
      let (source, h_8, rest_8) =
        both_return (text_value "source" (some (text event.source))) _ rest_7 in
      let (severity, h_9, rest_9) =
        both_return (non_negative_int (some (integer event.severity))) _ rest_8 in
      record {
        id = text_value-returned "id" event.id id h_1;
        service = text_value-returned "service" event.service service h_4;
        summary = text_value-returned "summary" event.summary summary h_7;
        source = text_value-returned "source" event.source source h_8;
        severity = non_negative_int-returned event.severity severity h_9;
      }

  -- Evidence comes back from its mapping as it was exactly where its texts are not blank and its severity is
  -- not negative. The printed instant is read back, and is not blank.
  pub evidence_from_mapping-evidence_to_mapping :
      (evidence_from_mapping clock (evidence_to_mapping clock event) ≡ ok event) ↔ IsComplete event
  evidence_from_mapping-evidence_to_mapping = (what_comes_back-IsComplete, complete_comes_back)
