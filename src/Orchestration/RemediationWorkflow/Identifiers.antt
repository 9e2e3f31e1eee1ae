-- ===== src/Orchestration/RemediationWorkflow/Identifiers.antt =====
-- The identifiers of a valid request of orchestration/remediation_workflow.py, and those that its workflow
-- builds of them, within the 192 characters that state/lifecycle.py allows.
use Prim.Native.Char.{code}
use Prim.Native.String.{◌++◌}
use Prim.Native.String.append
use engineering_intelligence.Base.{
  ℕ, ◌+◌, ◌≤◌, ◌==◌, String, Bool, true, false, not, ◌||◌, List, [], ◌∷◌, ◌≡◌, refl, ap, ◌∙◌, leb,
  length, arith, length-append, All,
}
use engineering_intelligence.Base.{◌++◌ as ◌⧺◌}
use engineering_intelligence.Base.Result.{ok, guard_passed, both_return}
use engineering_intelligence.Base.Text.{codes}
use engineering_intelligence.State.Lifecycle
use engineering_intelligence.State.Lifecycle.{is_alphanumeric, every, in_range}
use engineering_intelligence.Orchestration.RemediationWorkflow.{
  RemediationRequest, is_identifier_char, identifier_codes, is_identifier, check_identifiers,
  validate, workflow_id, bad_identifier,
}

every-imp :
    (p q : ℕ → Bool) (s : List ℕ)
    → ((c : ℕ) → p c ≡ true → q c ≡ true)
    → every p s ≡ true
    → every q s ≡ true
unfolding every
every-imp p q [] f h = refl
every-imp p q (c ∷ s) f h =
    let head : p c ≡ true = ground arith in
    let tail : every p s ≡ true = ground arith in rw (f c head, every-imp p q s f tail) refl

every-append :
    (p : ℕ → Bool) (s t : List ℕ) → every p s ≡ true → every p t ≡ true → every p (s ⧺ t) ≡ true
unfolding every
every-append p [] t h k = k
every-append p (c ∷ s) t h k =
    let head : p c ≡ true = ground arith in
    let tail : every p s ≡ true = ground arith in rw (head, every-append p s t tail k) refl

codes-append : (s t : String) → codes (s ++ t) ≡ codes s ⧺ codes t
codes-append String.[] t = ap codes (append.nil t)
codes-append (String.◌∷◌ c s) t =
    ap codes (append.cons c s t) ∙ ap (λ l. code c ∷ l) (codes-append s t)

with_two_more :
    (a b c d e slash at : Bool)
    → (a || b || c || d || e) ≡ true
    → (a || b || c || d || slash || at || e) ≡ true
with_two_more true b c d e slash at h = refl
with_two_more false true c d e slash at h = refl
with_two_more false false true d e slash at h = refl
with_two_more false false false true e slash at h = refl
with_two_more false false false false true true at h = refl
with_two_more false false false false true false true h = refl
with_two_more false false false false true false false h = refl
with_two_more false false false false false slash at h = cc

wider_char : (c : ℕ) → is_identifier_char c ≡ true → Lifecycle.is_identifier_char c ≡ true
unfolding is_identifier_char Lifecycle.is_identifier_char
wider_char c h =
    with_two_more (is_alphanumeric c) (c == b'.') (c == b'_') (c == b':') (c == b'-') (c == b'/')
      (c == b'@') h

alphanumeric_char : (c : ℕ) → is_alphanumeric c ≡ true → Lifecycle.is_identifier_char c ≡ true
unfolding Lifecycle.is_identifier_char
alphanumeric_char c h = rw h refl

-- What an identifier of a request is made of: at most 128 characters that the lifecycle allows.
identifier_parts :
    (s : List ℕ)
    → identifier_codes s ≡ true
    → (Lifecycle.identifier_codes s ≡ true)
      × (every Lifecycle.is_identifier_char s ≡ true)
      × (length s ≤ 128)
unfolding identifier_codes Lifecycle.identifier_codes every
identifier_parts [] h = cc
identifier_parts (c ∷ s) h =
    let first : is_alphanumeric c ≡ true = ground arith in
    let rest : every is_identifier_char s ≡ true = ground arith in
    let short : leb (length s) 127 ≡ true = ground arith in
    let wide = every-imp is_identifier_char Lifecycle.is_identifier_char s wider_char rest in
    let within : leb (length s) 191 ≡ true = ground arith in
    (rw (first, wide, within) refl, rw (alphanumeric_char c first, wide) refl, ground arith)

-- An identifier of the lifecycle that is continued by characters of one, within the bound.
joined :
    (s t : List ℕ)
    → Lifecycle.identifier_codes s ≡ true
    → every Lifecycle.is_identifier_char t ≡ true
    → length s + length t ≤ 192
    → Lifecycle.identifier_codes (s ⧺ t) ≡ true
unfolding Lifecycle.identifier_codes
joined [] t h k bound = cc
joined (c ∷ s) t h k bound =
    let first : is_alphanumeric c ≡ true = ground arith in
    let rest : every Lifecycle.is_identifier_char s ≡ true = ground arith in
    let size = length-append s t in
    let within : leb (length (s ⧺ t)) 191 ≡ true = ground (arith, size) in
    rw (first, every-append Lifecycle.is_identifier_char s t rest k, within) refl

checked_entries :
    (entries : List (String × String))
    → check_identifiers entries ≡ ok tt
    → All (λ entry. is_identifier entry.1 ≡ true) entries
unfolding check_identifiers
checked_entries [] h = tt
checked_entries ((label, value) ∷ rest) h =
    let (passed, later) =
      guard_passed (not (is_identifier value)) (bad_identifier label) (check_identifiers rest) h in
    (ground arith, checked_entries rest later)

lifecycle_identifier : (s : String) → is_identifier s ≡ true → Lifecycle.is_identifier s ≡ true
unfolding is_identifier Lifecycle.is_identifier
lifecycle_identifier s h = (identifier_parts (codes s) h).0

-- The texts of a valid request that its events carry.
pub record HasIdentifiers (request : RemediationRequest) : Type 0 where
  pub request_id : is_identifier request.request_id ≡ true
  pub service : Lifecycle.is_identifier request.service ≡ true
  pub environment : Lifecycle.is_identifier request.environment ≡ true
  pub correlation_id : Lifecycle.is_identifier request.correlation_id ≡ true
  pub tenant_id : Lifecycle.is_identifier request.tenant_id ≡ true

abbrev labelled : RemediationRequest → List (String × String)
labelled request =
    ("request_id", request.request_id)
    ∷ ("incident_id", request.incident_id)
    ∷ ("service", request.service)
    ∷ ("environment", request.environment)
    ∷ ("correlation_id", request.correlation_id)
    ∷ ("tenant_id", request.tenant_id)
    ∷ []

validate-HasIdentifiers :
    (request : RemediationRequest) → validate request ≡ ok tt → HasIdentifiers request
unfolding validate
validate-HasIdentifiers request h =
    let (done, all, later) = both_return (check_identifiers (labelled request)) _ h in
    let (request_id, (incident_id, (service, (environment, (correlation_id, (tenant_id, end)))))) =
      checked_entries (labelled request) all in
    record {
      request_id = request_id;
      service = lifecycle_identifier request.service service;
      environment = lifecycle_identifier request.environment environment;
      correlation_id = lifecycle_identifier request.correlation_id correlation_id;
      tenant_id = lifecycle_identifier request.tenant_id tenant_id;
    }

workflow_id_parts :
    (request : RemediationRequest) (id : String)
    → workflow_id request ≡ ok id
    → (validate request ≡ ok tt) × (id ≡ "remediation:" ++ request.request_id)
unfolding workflow_id
workflow_id_parts request id h =
    let (done, passed, same) =
      both_return (validate request) (λ _. ok ("remediation:" ++ request.request_id)) h in
    (passed, cc)

prefixed :
    (s : List ℕ)
    → every Lifecycle.is_identifier_char s ≡ true
    → length s ≤ 128
    → Lifecycle.identifier_codes (codes "remediation:" ⧺ s) ≡ true
unfolding Lifecycle.identifier_codes Lifecycle.is_identifier_char every is_alphanumeric in_range
prefixed s h bound = joined (codes "remediation:") s refl h (omega arith)

-- A step of the workflow that its event identifiers can name.
pub record IsStep (step : String) : Type 0 where
  pub characters : every Lifecycle.is_identifier_char (codes step) ≡ true
  pub size : length (codes step) ≤ 51

-- The identifiers that the workflow of a valid request builds fit the lifecycle.
pub workflow_identifiers :
    (request : RemediationRequest) (id step : String)
    → workflow_id request ≡ ok id
    → IsStep step
    → HasIdentifiers request
      × (Lifecycle.is_identifier id ≡ true)
      × (Lifecycle.is_identifier (id ++ ":" ++ step) ≡ true)
unfolding is_identifier Lifecycle.is_identifier Lifecycle.is_identifier_char every is_alphanumeric
    in_range
workflow_identifiers request id step h is_step =
    let (passed, same) = workflow_id_parts request id h in
    let texts = validate-HasIdentifiers request passed in
    let (_, characters, size) = identifier_parts (codes request.request_id) texts.request_id in
    let spelled : codes id ≡ codes "remediation:" ⧺ codes request.request_id =
      ap codes same ∙ codes-append "remediation:" request.request_id in
    let whole : Lifecycle.identifier_codes (codes id) ≡ true =
      rw spelled (prefixed (codes request.request_id) characters size) in
    let long : length (codes id) ≡ 12 + length (codes request.request_id) =
      ap length spelled ∙ length-append (codes "remediation:") (codes request.request_id) in
    let ending : codes (":" ++ step) ≡ b':' ∷ codes step = codes-append ":" step in
    let allowed : every Lifecycle.is_identifier_char (codes (":" ++ step)) ≡ true =
      rw (ending, is_step.characters) refl in
    (
      texts,
      whole,
      rw (codes-append id (":" ++ step)) (
          joined (codes id) (codes (":" ++ step)) whole allowed
            (omega (arith, long, size, ap length ending, is_step.size))),
    )
