-- ===== src/Remediation/Catalog.antt =====
-- remediation/catalog.py: autonomy levels, runbooks and the catalog they are registered in.
-- A message of an exception is a constructor of `CatalogError` with what it names.
pub mod Admission
pub mod Default
mod Tests
use engineering_intelligence.Base.{
  ℕ, String, Bool, true, false, not, ◌&&◌, Option, none, some, List, [], ◌∷◌, leb, is_empty,
}
use engineering_intelligence.Base.Dict.{Dict, lookup, insert, is_some}
use engineering_intelligence.Base.Int.{ℤ}
use engineering_intelligence.Base.Result.{Result, ok, raised, ◌>>=◌, ◌>>◌, raise_if}

pub data AutonomyLevel : Type 0 where
  observe recommend human_execute approve_and_execute bounded_autonomous : AutonomyLevel

-- `int(level)`
abbrev pub rank : AutonomyLevel → ℕ
rank observe = 0
rank recommend = 1
rank human_execute = 2
rank approve_and_execute = 3
rank bounded_autonomous = 4

pub record Runbook : Type 0 where
  pub id : String
  pub description : String
  pub environments : List String
  pub max_blast_radius : ℤ
  pub reversible : Bool
  pub required_level : AutonomyLevel
  pub verify_signal : String
  pub rollback_id : Option String
  pub failure_class : String
  pub preconditions : List String
  pub postconditions : List String
  pub idempotency_scope : String

pub data CatalogError : Type 0 where
  duplicate unknown : String → CatalogError
  not_reversible no_preconditions no_postconditions : CatalogError

-- `_items`
abbrev pub RunbookCatalog : Type 0
RunbookCatalog = Dict Runbook

abbrev is_automated : Runbook → Bool
is_automated r = leb 3 (rank r.required_level)

unfoldable pub register : Runbook → RunbookCatalog → Result CatalogError RunbookCatalog
register runbook items = do
  raise_if (is_some (lookup runbook.id items)) (duplicate runbook.id)
  raise_if (is_automated runbook && not runbook.reversible) not_reversible
  raise_if (is_automated runbook && is_empty runbook.preconditions) no_preconditions
  raise_if (is_automated runbook && is_empty runbook.postconditions) no_postconditions
  ok (insert runbook.id runbook items)

or_unknown : String → Option Runbook → Result CatalogError Runbook
or_unknown runbook_id none = raised (unknown runbook_id)
or_unknown runbook_id (some runbook) = ok runbook

unfoldable pub get : RunbookCatalog → String → Result CatalogError Runbook
unfolding or_unknown
get items runbook_id = or_unknown runbook_id (lookup runbook_id items)
