-- ===== src/Remediation/Lock/Exclusion.antt =====
-- Mutual exclusion of remediation/concurrency_lock.py: leases that are held at once share no service.
use mathlib.Core.Path.{subst}
use engineering_intelligence.Base.{
  sym, ℕ, ◌≡◌, refl, ◌↔◌, ◌⊎◌, inl, inr, String, Option, none, some, List, [], ◌∷◌, Member, All,
  Bool-cases, str_eq,
}
use engineering_intelligence.Base.Dict.{insert, erase}
use engineering_intelligence.Base.Result.{Result, ok, raised}
use engineering_intelligence.Base.Sort.{sorted, Member-sorted}
use engineering_intelligence.Remediation.Lock.{
  LockLease, LockoutRefusal, Leases, scope_of, prune_expired, intersection, to_set, first_refusal,
  acquire, is_expired, or_later, refusal_by, grant, new_lease,
}
use engineering_intelligence.Remediation.Lock.Overlap.{
  Disjoint, Member-to_set, sorted-intersection_nil, sorted-intersection_head,
}

-- No two leases share a service.
abbrev pub IsExclusive : Leases → Type 0
IsExclusive [] = Unit
IsExclusive ((k, lease) ∷ rest) =
    All (λ e. Disjoint (scope_of lease) (scope_of e.1)) rest × IsExclusive rest

-- The lease is among those held.
abbrev pub Holds : LockLease → Leases → Type 0
Holds lease [] = ⊥
Holds lease (e ∷ rest) = (e.1 ≡ lease) ⊎ Holds lease rest

module _ (P : String × LockLease → Type 0) where
  pub All-prune_expired : (moment : ℕ) (d : Leases) → All P d → All P (prune_expired moment d)
  unfolding prune_expired
  All-prune_expired moment [] h = h
  All-prune_expired moment ((k, lease) ∷ d) h = elim (Bool-cases (is_expired moment lease)) [
    | inl gone ↦ rw gone (All-prune_expired moment d h.1)
    | inr kept ↦ rw kept (h.0, All-prune_expired moment d h.1)
  ]

  All-insert :
      (k : String) (lease : LockLease) (d : Leases)
      → All P d
      → P (k, lease)
      → All P (insert k lease d)
  All-insert k lease [] h p = (p, tt)
  All-insert k lease ((j, old) ∷ d) h p = elim (Bool-cases (str_eq j k)) [
    | inl same ↦ rw same (p, h.1)
    | inr other ↦ rw other (h.0, All-insert k lease d h.1 p)
  ]

  All-erase : (k : String) (d : Leases) → All P d → All P (erase k d)
  All-erase k [] h = h
  All-erase k ((j, old) ∷ d) h = elim (Bool-cases (str_eq j k)) [
    | inl same ↦ rw same h.1
    | inr other ↦ rw other (h.0, All-erase k d h.1)
  ]

pub prune_expired-IsExclusive :
    (moment : ℕ) (d : Leases) → IsExclusive d → IsExclusive (prune_expired moment d)
unfolding prune_expired
prune_expired-IsExclusive moment [] h = h
prune_expired-IsExclusive moment ((k, lease) ∷ d) h = elim (Bool-cases (is_expired moment lease)) [
  | inl gone ↦ rw gone (prune_expired-IsExclusive moment d h.1)
  | inr kept ↦ rw kept (
    All-prune_expired (λ e. Disjoint (scope_of lease) (scope_of e.1)) moment d h.0,
    prune_expired-IsExclusive moment d h.1,
  )
]

pub erase-IsExclusive : (k : String) (d : Leases) → IsExclusive d → IsExclusive (erase k d)
erase-IsExclusive k [] h = h
erase-IsExclusive k ((j, lease) ∷ d) h = elim (Bool-cases (str_eq j k)) [
  | inl same ↦ rw same h.1
  | inr other ↦
      rw other (
        All-erase (λ e. Disjoint (scope_of lease) (scope_of e.1)) k d h.0,
        erase-IsExclusive k d h.1,
      )
]

pub insert-IsExclusive :
    (k : String) (lease : LockLease) (d : Leases)
    → IsExclusive d
    → All (λ e. Disjoint (scope_of lease) (scope_of e.1)) d
    → IsExclusive (insert k lease d)
insert-IsExclusive k lease [] h apart = (tt, tt)
insert-IsExclusive k lease ((j, old) ∷ d) h apart = elim (Bool-cases (str_eq j k)) [
  | inl same ↦ rw same (apart.1, h.1)
  | inr other ↦ rw other (
    All-insert (λ e. Disjoint (scope_of old) (scope_of e.1)) k lease d h.0 (λ x a b. apart.0 x b a),
    insert-IsExclusive k lease d h.1 apart.1,
  )
]

-- Why `acquire` may be refused: a held lease contains a service of the target.
pub record Conflict (refusal : LockoutRefusal) (target : List String) (d : Leases) : Type 0 where
  pub lease : LockLease
  pub held : Holds lease d
  pub named : lease.lease_id ≡ refusal.active_lease_id
  pub wanted : Member refusal.conflicting_service target
  pub locked : Member refusal.conflicting_service (scope_of lease)

abbrev Verdict : List String → Leases → Option LockoutRefusal → Type 0
Verdict target d none = All (λ e. Disjoint target (scope_of e.1)) d
Verdict target d (some refusal) = Conflict refusal target d

Conflict-later :
    (refusal : LockoutRefusal) (target : List String) (e : String × LockLease) (d : Leases)
    → Conflict refusal target d
    → Conflict refusal target (e ∷ d)
Conflict-later refusal target e d c = record {
  lease = c.lease;
  held = inr c.held;
  named = c.named;
  wanted = c.wanted;
  locked = c.locked;
}

Verdict-cons :
    (target : List String) (k : String) (lease : LockLease) (d : Leases) (overlap : List String)
    → sorted (intersection target (scope_of lease)) ≡ overlap
    → (later : Option LockoutRefusal) → Verdict target d later
    → Verdict target ((k, lease) ∷ d) (or_later (refusal_by lease.lease_id overlap) later)
unfolding or_later refusal_by
Verdict-cons target k lease d [] e none v = (sorted-intersection_nil target (scope_of lease) e, v)
Verdict-cons target k lease d [] e (some refusal) v = Conflict-later refusal target (k, lease) d v
Verdict-cons target k lease d (x ∷ rest) e later v =
    let (wanted, locked) = sorted-intersection_head target (scope_of lease) e in
    record { lease = lease; held = inl refl; named = refl; wanted = wanted; locked = locked }

first_refusal-Verdict :
    (target : List String) (d : Leases) → Verdict target d (first_refusal target d)
unfolding first_refusal
first_refusal-Verdict target [] = tt
first_refusal-Verdict target ((k, lease) ∷ d) =
    Verdict-cons target k lease d (sorted (intersection target (scope_of lease))) refl
      (first_refusal target d) (first_refusal-Verdict target d)

Member-new_lease :
    (x : String) (lease_id service_id : String) (target : List String) (ttl moment : ℕ)
    → Member service_id target
    → Member x (scope_of (new_lease lease_id service_id target ttl moment)) ↔ Member x target
unfolding new_lease
Member-new_lease x lease_id service_id target ttl moment own =
    let (down, up) = Member-sorted x (to_set target) in
    let (out, into) = Member-to_set x target in
    (
      λ m. elim m [
        | inl e ↦ subst (λ z. Member z target) (sym e) own
        | inr locked ↦ out (down locked)
      ],
      λ m. inr (up (into m)),
    )

-- What `acquire` promises, for its target and the leases that have not expired.
abbrev pub Outcome : List String → Leases → Result LockoutRefusal LockLease × Leases → Type 0
Outcome target active (ok lease, after) =
    All (λ e. Disjoint target (scope_of e.1)) active
    × (after ≡ insert lease.lease_id lease active)
    × ((x : String) → Member x (scope_of lease) ↔ Member x target)
Outcome target active (raised refusal, after) = Conflict refusal target active × (after ≡ active)

Outcome-grant :
    (lease_id service_id : String) (target : List String) (ttl moment : ℕ) (active : Leases)
    → Member service_id target
    → (verdict : Option LockoutRefusal) → Verdict target active verdict
    → Outcome target active (grant verdict (new_lease lease_id service_id target ttl moment) active)
unfolding grant
Outcome-grant lease_id service_id target ttl moment active own none apart =
    (apart, refl, λ x. Member-new_lease x lease_id service_id target ttl moment own)
Outcome-grant lease_id service_id target ttl moment active own (some refusal) c = (c, refl)

-- `acquire` first drops the expired leases. It grants a lease exactly on the service and its impacted
-- services if none of them is in a remaining lease, and adds it; otherwise it names a remaining lease
-- and a wanted service that this lease locks, and adds nothing.
pub acquire-Outcome :
    (lease_id service_id : String) (impacted : List String) (ttl moment : ℕ) (leases : Leases)
    → Outcome
        (service_id ∷ impacted)
        (prune_expired moment leases)
        (acquire lease_id service_id impacted ttl moment leases)
unfolding acquire
acquire-Outcome lease_id service_id impacted ttl moment leases =
    Outcome-grant lease_id service_id (service_id ∷ impacted) ttl moment
      (prune_expired moment leases) (inl refl)
      (first_refusal (service_id ∷ impacted) (prune_expired moment leases))
      (first_refusal-Verdict (service_id ∷ impacted) (prune_expired moment leases))
