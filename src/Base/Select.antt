-- ===== src/Base/Select.antt =====
-- Choosing from a list by Boolean tests, and what holds of the members that were chosen.
use Prim.Native.Nat.{ℕ, zero, suc}
use mathlib.Core.Path.{◌≡◌, refl}
use mathlib.Core.Logic.{◌⊎◌, inl, inr}
use mathlib.Core.Bool.{Bool, true, false, ◌||◌}
use mathlib.Core.Option.{Option, none, some}
use mathlib.Core.List.{List, [], ◌∷◌, ◌++◌, map}
use engineering_intelligence.Base.Tests.{if◌then◌else◌, Bool-cases}
use engineering_intelligence.Base.Lists.{All}

module _ {ℓ} {A : Type ℓ} where
  -- `[x for x in xs if test(x)]`
  unfoldable pub keep : (A → Bool) → List A → List A
  keep test [] = []
  keep test (x ∷ xs) = let rest = keep test xs in if test x then x ∷ rest else rest

  -- `next((x for x in xs if test(x)), None)`
  unfoldable pub find : (A → Bool) → List A → Option A
  find test [] = none
  find test (x ∷ xs) = let rest = find test xs in if test x then some x else rest

  -- `any(test(x) for x in xs)`
  unfoldable pub any : (A → Bool) → List A → Bool
  any test [] = false
  any test (x ∷ xs) = test x || any test xs

  -- `xs[-1] if xs else None`
  unfoldable pub last : List A → Option A
  last [] = none
  last (x ∷ []) = some x
  last (x ∷ y ∷ xs) = last (y ∷ xs)

  -- `xs[:n]`
  unfoldable pub take : ℕ → List A → List A
  take zero xs = []
  take (suc n) [] = []
  take (suc n) (x ∷ xs) = x ∷ take n xs

  unfoldable pub insert_by : (A → A → Bool) → A → List A → List A
  insert_by before x [] = x ∷ []
  insert_by before x (y ∷ ys) =
      let rest = insert_by before x ys in if before y x then y ∷ rest else x ∷ y ∷ ys

  -- `sorted`, which is stable, by the test that an element goes before another.
  unfoldable pub sort_by : (A → A → Bool) → List A → List A
  unfolding insert_by
  sort_by before [] = []
  sort_by before (x ∷ xs) = insert_by before x (sort_by before xs)

abbrev pub In : {A : Type 0} → A → List A → Type 0
In x [] = ⊥
In x (y ∷ ys) = (x ≡ y) ⊎ In x ys

module _ {ℓ κ} {A : Type ℓ} (P : A → Type κ) where
  abbrev pub OfSome : Option A → Type κ
  OfSome none = Unit
  OfSome (some x) = P x

  pub All-keep : (test : A → Bool) (xs : List A) → All P xs → All P (keep test xs)
  unfolding keep
  All-keep test [] h = tt
  All-keep test (x ∷ xs) h = elim (Bool-cases (test x)) [
    | inl taken ↦ rw taken (h.0, All-keep test xs h.1)
    | inr left ↦ rw left (All-keep test xs h.1)
  ]

  pub OfSome-find : (test : A → Bool) (xs : List A) → All P xs → OfSome (find test xs)
  unfolding find
  OfSome-find test [] h = tt
  OfSome-find test (x ∷ xs) h = elim (Bool-cases (test x)) [
    | inl taken ↦ rw taken h.0
    | inr left ↦ rw left (OfSome-find test xs h.1)
  ]

  pub OfSome-last : (xs : List A) → All P xs → OfSome (last xs)
  unfolding last
  OfSome-last [] h = tt
  OfSome-last (x ∷ []) h = h.0
  OfSome-last (x ∷ y ∷ xs) h = OfSome-last (y ∷ xs) h.1

  pub All-take : (n : ℕ) (xs : List A) → All P xs → All P (take n xs)
  unfolding take
  All-take zero xs h = tt
  All-take (suc n) [] h = tt
  All-take (suc n) (x ∷ xs) h = (h.0, All-take n xs h.1)

  All-insert_by :
      (before : A → A → Bool) (x : A) (ys : List A) → P x → All P ys → All P (insert_by before x ys)
  unfolding insert_by
  All-insert_by before x [] p h = (p, tt)
  All-insert_by before x (y ∷ ys) p h = elim (Bool-cases (before y x)) [
    | inl taken ↦ rw taken (h.0, All-insert_by before x ys p h.1)
    | inr left ↦ rw left (p, h)
  ]

  pub All-sort_by : (before : A → A → Bool) (xs : List A) → All P xs → All P (sort_by before xs)
  unfolding sort_by
  All-sort_by before [] h = tt
  All-sort_by before (x ∷ xs) h =
      All-insert_by before x (sort_by before xs) h.0 (All-sort_by before xs h.1)

  pub All-append : (xs ys : List A) → All P xs → All P ys → All P (xs ++ ys)
  All-append [] ys h k = k
  All-append (x ∷ xs) ys h k = (h.0, All-append xs ys h.1 k)

  -- The elements that passed a test, with what was known of them.
  pub All-kept :
      (test : A → Bool) (xs : List A) → All P xs → All (λ x. P x × (test x ≡ true)) (keep test xs)
  unfolding keep
  All-kept test [] h = tt
  All-kept test (x ∷ xs) h = elim (Bool-cases (test x)) [
    | inl taken ↦ rw taken ((h.0, taken), All-kept test xs h.1)
    | inr left ↦ rw left (All-kept test xs h.1)
  ]

pub All-imp {ℓ κ μ} :
    {A : Type ℓ} {P : A → Type κ} {Q : A → Type μ} (xs : List A)
    → ((x : A) → P x → Q x)
    → All P xs
    → All Q xs
All-imp [] f h = tt
All-imp (x ∷ xs) f h = (f x h.0, All-imp xs f h.1)

pub All-In : {A : Type 0} (xs : List A) → All (λ x. In x xs) xs
All-In [] = tt
All-In (x ∷ xs) = (inl refl, All-imp xs (λ y m. inr m) (All-In xs))

pub All-map {ℓ κ μ} :
    {A : Type ℓ} {B : Type κ} (Q : B → Type μ) (f : A → B) (xs : List A)
    → All (λ x. Q (f x)) xs
    → All Q (map f xs)
All-map Q f [] h = tt
All-map Q f (x ∷ xs) h = (h.0, All-map Q f xs h.1)
