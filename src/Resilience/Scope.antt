-- ===== src/Resilience/Scope.antt =====
-- resilience/scope.py: the scope of an L4 certification and the two hashes that identify it.
-- hashlib, json and datetime are Python's; what the program uses of them is the record `Library`.
use engineering_intelligence.Base.{ℕ, String, ◌||◌, Option, none, some, List, if◌then◌else◌}
use engineering_intelligence.Base.Int.{ℤ, pos, leb_ℤ}
use engineering_intelligence.Base.Result.{Result, ok, raised}
use engineering_intelligence.Base.Sort.{sorted}
use engineering_intelligence.Base.Text.{is_blank}
use engineering_intelligence.Remediation.Catalog.{Runbook}

pub record CertificationScope : Type 0 where
  pub service : String
  pub environment : String
  pub runbook_id : String
  pub blast_radius_budget : ℤ

-- The payload of `material_inputs_hash`.
pub record MaterialInputs : Type 0 where
  pub scope : CertificationScope
  pub runbook_definition : Runbook
  pub policy_bundle_version : String
  pub verification_signal : String
  pub dependencies : List String

-- A parsed timestamp, as microseconds read in its own zone, or in UTC where it names none.
pub data Stamp : Type 0 where
  aware naive : ℕ → Stamp

-- `dumps_scope` and `dumps_inputs` are canonical `json.dumps`, `sha256` the hexadecimal digest.
pub record Library : Type 0 where
  pub sha256 : String → String
  pub dumps_scope : CertificationScope → String
  pub dumps_inputs : MaterialInputs → String
  pub fromisoformat : String → Option Stamp
  pub isoformat : ℕ → String

in_utc : Stamp → ℕ
in_utc (aware t) = t
in_utc (naive t) = t

read_stamp : Option Stamp → Option ℕ
unfolding in_utc
read_stamp none = none
read_stamp (some stamp) = some (in_utc stamp)

unfoldable pub parse_instant : Library → String → Option ℕ
unfolding read_stamp
parse_instant lib value = read_stamp (lib.fromisoformat value)

pub data ScopeError : Type 0 where
  blank_field unbounded_budget : ScopeError

-- `CertificationScope(...)`, whose `__post_init__` may raise.
unfoldable pub new_scope : String → String → String → ℤ → Result ScopeError CertificationScope
new_scope service environment runbook_id budget =
    if is_blank service || is_blank environment || is_blank runbook_id
    then raised blank_field
    else if leb_ℤ budget (pos 0)
    then raised unbounded_budget
    else ok (record {
      service = service;
      environment = environment;
      runbook_id = runbook_id;
      blast_radius_budget = budget;
    })

unfoldable pub scope_hash : Library → CertificationScope → String
scope_hash lib scope = lib.sha256 (lib.dumps_scope scope)

unfoldable pub material_inputs_hash :
    Library → CertificationScope → Runbook → String → String → List String → String
material_inputs_hash lib scope runbook bundle signal dependencies = lib.sha256 (
    lib.dumps_inputs (record {
      scope = scope;
      runbook_definition = runbook;
      policy_bundle_version = bundle;
      verification_signal = signal;
      dependencies = sorted dependencies;
    }))
