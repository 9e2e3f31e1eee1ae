-- ===== src/Remediation/Catalog/Admission.antt =====
-- What `register` admits (remediation/catalog.py), for a catalog built by any registrations.
use engineering_intelligence.Base.{
  ◌≡◌, ◌≢◌, ◌≤◌, String, true, none, some, List, [], ◌∷◌, arith, eq_iff, str_eq-cases, str_eq,
  if◌then◌else◌, inl, inr,
}
use engineering_intelligence.Base.Dict.{lookup, insert, lookup-insert}
use engineering_intelligence.Base.Result.{Result, ok, raised, ◌>>=◌, both_return}
use engineering_intelligence.Remediation.Catalog.{
  Runbook, RunbookCatalog, CatalogError, rank, register, get, unknown,
}

-- What the catalog promises of an automated runbook.
pub record IsAdmissible (r : Runbook) : Type 0 where
  pub reversible : 3 ≤ rank r.required_level → r.reversible ≡ true
  pub preconditions : 3 ≤ rank r.required_level → r.preconditions ≢ []
  pub postconditions : 3 ≤ rank r.required_level → r.postconditions ≢ []

abbrev pub IsValid : RunbookCatalog → Type 0
IsValid items = (k : String) (r : Runbook) → lookup k items ≡ some r → (r.id ≡ k) × IsAdmissible r

pub empty-IsValid : IsValid []
empty-IsValid k r e = cc

-- A registration that succeeds adds exactly that runbook, which was new, and admissible.
register_inv :
    (r : Runbook) (items items' : RunbookCatalog)
    → register r items ≡ ok items'
    → (lookup r.id items ≡ none) × IsAdmissible r × (items' ≡ insert r.id r items)
unfolding register
register_inv r items items' e = ground arith

-- Every successful registration keeps the catalog valid: each runbook is stored under its own id,
-- and an automated one is reversible and declares preconditions and postconditions.
pub register-IsValid :
    (r : Runbook) (items items' : RunbookCatalog)
    → IsValid items
    → register r items ≡ ok items'
    → IsValid items'
register-IsValid r items items' valid e k r' found =
    let (new, admissible, same) = register_inv r items items' e in
    elim (str_eq-cases r.id k) [
      | inl own ↦ ground (arith, lookup-insert r.id k r items, eq_iff r.id k)
      | inr other ↦ ground (arith, lookup-insert r.id k r items, eq_iff r.id k, valid k r')
    ]

-- After a successful registration `get` returns the new runbook under its id, which was unknown
-- before, and answers every other id as before.
pub get-register :
    (r : Runbook) (items items' : RunbookCatalog) (k : String)
    → register r items ≡ ok items'
    → (get items r.id ≡ raised (unknown r.id))
      × (get items' k ≡ (if str_eq r.id k then ok r else get items k))
unfolding get
get-register r items items' k e =
    let (new, admissible, same) = register_inv r items items' e in
    ground (arith, lookup-insert r.id k r items, eq_iff r.id k)

-- Registering a list in order.
unfoldable pub register_all : List Runbook → RunbookCatalog → Result CatalogError RunbookCatalog
register_all [] items = ok items
register_all (r ∷ rs) items = register r items >>= register_all rs

pub register_all-IsValid :
    (rs : List Runbook) (items items' : RunbookCatalog)
    → IsValid items
    → register_all rs items ≡ ok items'
    → IsValid items'
unfolding register_all
register_all-IsValid [] items items' valid e = ground arith
register_all-IsValid (r ∷ rs) items items' valid e =
    let (next, first, rest) = both_return (register r items) (register_all rs) e in
    register_all-IsValid rs next items' (register-IsValid r items next valid first) rest
