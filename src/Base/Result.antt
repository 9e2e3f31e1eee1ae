-- ===== src/Base/Result.antt =====
-- A call that returns or raises.
use mathlib.Core.Path.{◌≡◌, refl}
use mathlib.Core.Logic.{◌⊎◌, inl, inr}
use mathlib.Core.Bool.{Bool, true, false}

pub data Result {ℓ κ} (E : Type ℓ) (A : Type κ) : Type (ℓ ⊔ κ) where
  ok : A → Result E A
  raised : E → Result E A

-- `if c: raise e`
abbrev pub raise_if {ℓ} : {E : Type ℓ} → Bool → E → Result E (Unit {0})
raise_if true e = raised e
raise_if false e = ok tt

module _ {ℓ κ μ} {E : Type ℓ} {A : Type κ} {B : Type μ} where
  infixl 5 ◌>>=◌
  abbrev pub ◌>>=◌ : Result E A → (A → Result E B) → Result E B
  call >>= rest = elim call [ raised e ↦ raised e | ok value ↦ rest value ]

  -- What is known of a sequence that returned: both of its parts did.
  pub both_return :
      (call : Result E A) (rest : A → Result E B) {final : B}
      → (call >>= rest) ≡ ok final
      → (value : A) × (call ≡ ok value) × (rest value ≡ ok final)
  both_return (raised e) rest returned = cc
  both_return (ok value) rest returned = (value, refl, returned)

infixl 5 ◌>>◌
abbrev pub ◌>>◌ {ℓ κ} : {E : Type ℓ} {B : Type κ} → Result E (Unit {0}) → Result E B → Result E B
check >> rest = check >>= (λ _. rest)

-- A call returned or raised, kept as an equation.
pub Result-cases {ℓ κ} :
    {E : Type ℓ} {A : Type κ} (call : Result E A)
    → ((value : A) × (call ≡ ok value)) ⊎ ((e : E) × (call ≡ raised e))
Result-cases (raised e) = inr (e, refl)
Result-cases (ok value) = inl (value, refl)

-- The rest of a sequence that returned has returned.
pub rest_returned {ℓ κ} :
    {E : Type ℓ} {B : Type κ} (check : Result E (Unit {0})) (rest : Result E B) {final : B}
    → (check >> rest) ≡ ok final
    → rest ≡ ok final
rest_returned check rest returned = (both_return check (λ _. rest) returned).2

-- A guard that was passed.
pub guard_passed {ℓ κ} :
    {E : Type ℓ} {B : Type κ} (c : Bool) (e : E) (rest : Result E B) {final : B}
    → (raise_if c e >> rest) ≡ ok final
    → (c ≡ false) × (rest ≡ ok final)
guard_passed true e rest returned = cc
guard_passed false e rest returned = (refl, returned)
