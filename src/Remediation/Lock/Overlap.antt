-- ===== src/Remediation/Lock/Overlap.antt =====
-- When two scopes of remediation/concurrency_lock.py meet, and what sorting and `set` leave of one.
use mathlib.Core.Path.{subst}
use engineering_intelligence.Base.{
  sym, ◌≡◌, refl, ◌↔◌, inl, inr, String, true, false, List, [], ◌∷◌, contains, contains_iff, Member,
  Bool-cases,
}
use engineering_intelligence.Base.Sort.{sorted, Member-sorted}
use engineering_intelligence.Remediation.Lock.{intersection, to_set}

abbrev pub Disjoint : List String → List String → Type 0
Disjoint a b = (x : String) → Member x a → Member x b → ⊥

-- A text that equals a member, and one that equals no member.
Member-resp : {x y : String} (b : List String) → x ≡ y → contains y b ≡ true → Member x b
Member-resp {x} {y} b e inside = subst (λ z. Member z b) (sym e) ((contains_iff y b).0 inside)

not-Member : {x y : String} (b : List String) → x ≡ y → contains y b ≡ false → Member x b → ⊥
not-Member {x} {y} b e outside m = cc ((contains_iff y b).1 (subst (λ z. Member z b) e m))

pub Member-intersection :
    (x : String) (a b : List String) → Member x (intersection a b) ↔ (Member x a × Member x b)
unfolding intersection
Member-intersection x [] b = (λ m. absurd m, λ m. m.0)
Member-intersection x (y ∷ a) b =
    let (down, up) = Member-intersection x a b in
    elim (Bool-cases (contains y b)) [
      | inl inside ↦ rw inside (
        λ m. elim m [
          | inl e ↦ (inl e, Member-resp b e inside)
          | inr r ↦ (inr (down r).0, (down r).1)
        ],
        λ m. elim m.0 [ inl e ↦ inl e | inr r ↦ inr (up (r, m.1)) ],
      )
      | inr outside ↦ rw outside (
        λ m. (inr (down m).0, (down m).1),
        λ m. elim m.0 [ inl e ↦ absurd (not-Member b e outside m.1) | inr r ↦ up (r, m.1) ],
      )
    ]

pub Member-to_set : (x : String) (xs : List String) → Member x (to_set xs) ↔ Member x xs
unfolding to_set
Member-to_set x [] = (λ m. m, λ m. m)
Member-to_set x (y ∷ xs) =
    let (down, up) = Member-to_set x xs in
    elim (Bool-cases (contains y xs)) [
      | inl again ↦
          rw again
            (λ m. inr (down m), λ m. elim m [ inl e ↦ up (Member-resp xs e again) | inr r ↦ up r ])
      | inr new ↦ rw new (
        λ m. elim m [ inl e ↦ inl e | inr r ↦ inr (down r) ],
        λ m. elim m [ inl e ↦ inl e | inr r ↦ inr (up r) ],
      )
    ]

-- Two scopes meet in a service, or share none.
pub sorted-intersection_nil : (a b : List String) → sorted (intersection a b) ≡ [] → Disjoint a b
sorted-intersection_nil a b e x ma mb =
    rw e at ((Member-sorted x (intersection a b)).1 ((Member-intersection x a b).1 (ma, mb)))

pub sorted-intersection_head :
    (a b : List String) {x : String} {rest : List String}
    → sorted (intersection a b) ≡ x ∷ rest
    → Member x a × Member x b
sorted-intersection_head a b {x} {rest} e =
    (Member-intersection x a b).0 ((Member-sorted x (intersection a b)).0 (rw e (inl refl)))
