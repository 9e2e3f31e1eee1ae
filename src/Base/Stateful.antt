-- ===== src/Base/Stateful.antt =====
-- A call that returns or raises, and changes a state in either case.
use mathlib.Core.Path.{◌≡◌, refl}
use mathlib.Core.Bool.{Bool, true, false}
use engineering_intelligence.Base.Result.{Result, ok, raised}

abbrev pub Call : Type 0 → Type 0 → Type 0 → Type 0
Call S E A = S → Result E A × S

module _ {S E A B : Type 0} where
  abbrev pub continue : Result E A × S → (A → Call S E B) → Result E B × S
  continue (ok a, s) rest = rest a s
  continue (raised e, s) rest = (raised e, s)

  infixl 5 ◌>>=◌
  abbrev pub ◌>>=◌ : Call S E A → (A → Call S E B) → Call S E B
  ◌>>=◌ call rest s = continue (call s) rest

  -- What is known of a sequence that returned: both of its parts did.
  pub both_returned :
      (answer : Result E A × S) (rest : A → Call S E B) {b : B} {after : S}
      → continue answer rest ≡ (ok b, after)
      → (a : A) × (s : S) × (answer ≡ (ok a, s)) × (rest a s ≡ (ok b, after))
  both_returned (ok a, s) rest h = (a, s, refl, h)
  both_returned (raised e, s) rest h = cc

module _ {S E : Type 0} where
  abbrev pub give : {A : Type 0} → A → Call S E A
  give a s = (ok a, s)

  abbrev pub refuse : {A : Type 0} → E → Call S E A
  refuse e s = (raised e, s)

  -- `if c: raise e`
  abbrev pub refuse_if : Bool → E → Call S E (Unit {0})
  refuse_if true e s = (raised e, s)
  refuse_if false e s = (ok tt, s)

  infixl 5 ◌>>◌
  abbrev pub ◌>>◌ : {B : Type 0} → Call S E (Unit {0}) → Call S E B → Call S E B
  check >> rest = check >>= (λ _. rest)

  -- A guard that was passed.
  pub guard_was_passed :
      {B : Type 0} (c : Bool) (e : E) (rest : Call S E B) (s : S) {b : B} {after : S}
      → (refuse_if c e >> rest) s ≡ (ok b, after)
      → (c ≡ false) × (rest s ≡ (ok b, after))
  guard_was_passed true e rest s h = cc
  guard_was_passed false e rest s h = (refl, h)
