-- ===== src/Base/Sort.antt =====
-- Python's `sorted` on texts, by code points.
use Prim.Native.String.{String, compare}
use mathlib.Core.Path.{◌≡◌, refl}
use mathlib.Core.List.{List, [], ◌∷◌}
use mathlib.Core.Logic.{◌⊎◌, ◌↔◌, inl, inr}
use native.Mathlib.Omega.{arith}
use engineering_intelligence.Base.Lists.{Member}
use text.Mathlib.Text.{is_le}
use engineering_intelligence.Base.Tests.{if◌then◌else◌, Bool-cases}

insert_sorted : String → List String → List String
insert_sorted x [] = x ∷ []
insert_sorted x (y ∷ ys) = if is_le (compare x y) then x ∷ y ∷ ys else y ∷ insert_sorted x ys

unfoldable pub sorted : List String → List String
unfolding insert_sorted
sorted [] = []
sorted (x ∷ xs) = insert_sorted x (sorted xs)

sorted_words : sorted ("b" ∷ "aa" ∷ "a" ∷ []) ≡ "a" ∷ "aa" ∷ "b" ∷ []
unfolding sorted
sorted_words = refl

Member-insert_sorted :
    (a x : String) (ys : List String) → Member a (insert_sorted x ys) ↔ ((a ≡ x) ⊎ Member a ys)
unfolding insert_sorted
Member-insert_sorted a x [] = (λ m. m, λ m. m)
Member-insert_sorted a x (y ∷ ys) =
    let (down, up) = Member-insert_sorted a x ys in
    elim (Bool-cases (is_le (compare x y))) [
      | inl first ↦ rw first (λ m. m, λ m. m)
      | inr later ↦ rw later (λ m. ground (arith, down), λ m. ground (arith, up))
    ]

-- Sorting keeps the members.
pub Member-sorted : (a : String) (xs : List String) → Member a (sorted xs) ↔ Member a xs
unfolding sorted
Member-sorted a [] = (λ m. m, λ m. m)
Member-sorted a (x ∷ xs) =
    let (down, up) = Member-sorted a xs in
    let (out, into) = Member-insert_sorted a x (sorted xs) in
    (λ m. ground (arith, down, out), λ m. ground (arith, up, into))
