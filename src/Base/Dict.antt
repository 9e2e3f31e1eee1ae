-- ===== src/Base/Dict.antt =====
-- A Python dict (or a table with a text key) in insertion order.
use engineering_intelligence.Base.Tests.{if◌then◌else◌}
use Prim.Native.String.{String}
use mathlib.Core.Path.{◌≡◌, refl}
use mathlib.Core.Bool.{Bool, true, false}
use mathlib.Core.Option.{Option, none, some}
use mathlib.Core.List.{List, [], ◌∷◌}
use native.Mathlib.Omega.{arith}
use text.Mathlib.Text.{◌==◌ as str_eq}
use text.Mathlib.TextEquality.{eq_iff}

abbrev pub Dict {ℓ} : Type ℓ → Type ℓ
Dict V = List (String × V)

module _ {ℓ} {V : Type ℓ} where
  -- `d.get(k)`
  abbrev pub lookup : String → Dict V → Option V
  lookup k [] = none
  lookup k (entry ∷ d) = if str_eq entry.0 k then some entry.1 else lookup k d

  -- `d[k] = v`
  abbrev pub insert : String → V → Dict V → Dict V
  insert k v [] = (k, v) ∷ []
  insert k v (entry ∷ d) = if str_eq entry.0 k then (k, v) ∷ d else entry ∷ insert k v d

  -- `del d[k]`
  abbrev pub erase : String → Dict V → Dict V
  erase k [] = []
  erase k (entry ∷ d) = if str_eq entry.0 k then d else entry ∷ erase k d

  abbrev pub is_some : Option V → Bool
  is_some none = false
  is_some (some v) = true

  -- A write is read back under its own key, and changes no other.
  pub lookup-insert :
      (k j : String) (v : V) (d : Dict V)
      → lookup j (insert k v d) ≡ (if str_eq k j then some v else lookup j d)
  lookup-insert k j v [] = refl
  lookup-insert k j v (entry ∷ d) =
      ground (arith, lookup-insert k j v d, eq_iff entry.0 j, eq_iff entry.0 k, eq_iff k j)
