-- ===== src/Remediation/Lock/Runs.antt =====
-- Runs of the lock manager of remediation/concurrency_lock.py: any calls in any order, at any times.
use mathlib.Core.Path.{subst}
use engineering_intelligence.Base.{
  ℕ, ◌+◌, ◌<◌, ◌≡◌, refl, inl, inr, String, true, false, none, some, List, [], ◌∷◌, arith, eq_iff,
  Member, All, Bool-cases, str_eq, sym, ap,
}
use engineering_intelligence.Base.Dict.{insert, erase, lookup, is_some}
use engineering_intelligence.Base.Result.{Result, ok, raised}
use engineering_intelligence.Remediation.Lock.{
  LockLease, LockoutRefusal, Leases, scope_of, prune_expired, acquire, release, active_leases,
  is_expired,
}
use engineering_intelligence.Remediation.Lock.Overlap.{Disjoint}
use engineering_intelligence.Remediation.Lock.Exclusion.{
  IsExclusive, Holds, Outcome, acquire-Outcome, insert-IsExclusive, erase-IsExclusive,
  prune_expired-IsExclusive,
}

-- One call of the manager.
pub data LockStep (before after : Leases) : Type 0 where
  acquires :
      (lease_id service_id : String) (impacted : List String) (ttl moment : ℕ)
      → after ≡ (acquire lease_id service_id impacted ttl moment before).1
      → LockStep before after
  releases : (lease : LockLease) → after ≡ (release lease before).1 → LockStep before after
  lists : (moment : ℕ) → after ≡ active_leases moment before → LockStep before after

-- The tables of a manager that started empty.
pub data Reached : Leases → Type 0 where
  started : Reached []
  called : {before after : Leases} → Reached before → LockStep before after → Reached after

Outcome-IsExclusive :
    (target : List String) (active : Leases) (outcome : Result LockoutRefusal LockLease × Leases)
    → Outcome target active outcome
    → IsExclusive active
    → IsExclusive outcome.1
Outcome-IsExclusive target active (ok lease, after) (apart, same, members) h =
    rw same (insert-IsExclusive lease.lease_id lease active h (weaken active apart))
  where
    weaken :
        (d : Leases)
        → All (λ e. Disjoint target (scope_of e.1)) d
        → All (λ e. Disjoint (scope_of lease) (scope_of e.1)) d
    weaken [] a = a
    weaken (e ∷ d) a = (λ x m n. a.0 x ((members x).0 m) n, weaken d a.1)
Outcome-IsExclusive target active (raised refusal, after) (conflict, same) h = rw same h

release-IsExclusive :
    (lease : LockLease) (leases : Leases)
    → IsExclusive leases
    → IsExclusive (release lease leases).1
unfolding release
release-IsExclusive lease leases h = elim (Bool-cases (is_some (lookup lease.lease_id leases))) [
  | inl held ↦ rw held (erase-IsExclusive lease.lease_id leases h)
  | inr gone ↦ rw gone h
]

LockStep-IsExclusive :
    {before after : Leases} → LockStep before after → IsExclusive before → IsExclusive after
unfolding active_leases
LockStep-IsExclusive {before} (acquires lease_id service_id impacted ttl moment e) h = rw e (
    Outcome-IsExclusive (service_id ∷ impacted) (prune_expired moment before)
      (acquire lease_id service_id impacted ttl moment before)
      (acquire-Outcome lease_id service_id impacted ttl moment before)
      (prune_expired-IsExclusive moment before h))
LockStep-IsExclusive {before} (releases lease e) h = rw e (release-IsExclusive lease before h)
LockStep-IsExclusive {before} (lists moment e) h = rw e (prune_expired-IsExclusive moment before h)

-- Whatever calls are made, from an empty table, no two leases of the table share a service.
pub Reached-IsExclusive : {leases : Leases} → Reached leases → IsExclusive leases
Reached-IsExclusive started = tt
Reached-IsExclusive (called r step) = LockStep-IsExclusive step (Reached-IsExclusive r)

Holds-insert : (k : String) (lease : LockLease) (d : Leases) → Holds lease (insert k lease d)
Holds-insert k lease [] = inl refl
Holds-insert k lease ((j, old) ∷ d) = elim (Bool-cases (str_eq j k)) [
  | inl same ↦ rw same (inl refl)
  | inr other ↦ rw other (inr (Holds-insert k lease d))
]

Holds-prune_expired :
    (lease : LockLease) (moment : ℕ) (d : Leases)
    → Holds lease d
    → moment < lease.expires_at
    → Holds lease (prune_expired moment d)
unfolding prune_expired
Holds-prune_expired lease moment [] h live = h
Holds-prune_expired lease moment ((k, old) ∷ d) (inl e) live =
    let kept : is_expired moment old ≡ false = ground (arith, ap LockLease.expires_at e) in
    rw kept (inl e)
Holds-prune_expired lease moment ((k, old) ∷ d) (inr h) live =
    elim (Bool-cases (is_expired moment old)) [
      | inl gone ↦ rw gone (Holds-prune_expired lease moment d h live)
      | inr kept ↦ rw kept (inr (Holds-prune_expired lease moment d h live))
    ]

apart_from_held :
    (lease : LockLease) (target : List String) (d : Leases) (shared : String)
    → Holds lease d
    → All (λ e. Disjoint target (scope_of e.1)) d
    → Member shared target
    → Member shared (scope_of lease)
    → ⊥
apart_from_held lease target [] shared h apart wanted locked = elim h [ ]
apart_from_held lease target (e ∷ d) shared (inl same) apart wanted locked =
    apart.0 shared wanted (subst (λ (l : LockLease). Member shared (scope_of l)) (sym same) locked)
apart_from_held lease target (e ∷ d) shared (inr later) apart wanted locked =
    apart_from_held lease target d shared later apart.1 wanted locked

refused_of_Outcome :
    (lease : LockLease) (target : List String) (active : Leases) (shared : String)
    (outcome : Result LockoutRefusal LockLease × Leases)
    → Outcome target active outcome
    → Holds lease active
    → Member shared target
    → Member shared (scope_of lease)
    → (refusal : LockoutRefusal) × (outcome.0 ≡ raised refusal)
refused_of_Outcome lease target active shared (ok new, after) (apart, rest, members) held wanted
      locked =
    absurd (apart_from_held lease target active shared held apart wanted locked)
refused_of_Outcome lease target active shared (raised refusal, after) o held wanted locked =
    (refusal, refl)

acquire_expiry :
    (lease_id service_id : String) (impacted : List String) (ttl moment : ℕ) (leases : Leases)
    {lease : LockLease}
    → (acquire lease_id service_id impacted ttl moment leases).0 ≡ ok lease
    → (lease.expires_at ≡ moment + ttl) × (lease.lease_id ≡ lease_id)
unfolding acquire
acquire_expiry lease_id service_id impacted ttl moment leases e = ground arith

Holds-acquire :
    (lease : LockLease) (target : List String) (active : Leases)
    (outcome : Result LockoutRefusal LockLease × Leases)
    → Outcome target active outcome
    → outcome.0 ≡ ok lease
    → Holds lease outcome.1 × ((x : String) → Member x target → Member x (scope_of lease))
Holds-acquire lease target active (ok new, after) (apart, same, members) e =
    subst
      (λ (l : LockLease). Holds l after × ((x : String) → Member x target → Member x (scope_of l)))
      {x = new} (ground arith) (rw same (Holds-insert new.lease_id new active), λ x. (members x).1)
Holds-acquire lease target active (raised refusal, after) o e = cc

-- While a granted lease runs and is not released, every later call of `acquire` that wants one of its
-- services is refused.
pub acquire_locks_out :
    (lease_id service_id : String) (impacted : List String) (ttl moment : ℕ) (leases : Leases)
    (lease_id' service_id' : String) (impacted' : List String) (ttl' moment' : ℕ) (shared : String)
    {lease : LockLease}
    → (acquire lease_id service_id impacted ttl moment leases).0 ≡ ok lease
    → moment' < moment + ttl
    → Member shared (service_id ∷ impacted)
    → Member shared (service_id' ∷ impacted')
    → (refusal : LockoutRefusal) × ((acquire lease_id' service_id' impacted' ttl' moment'
          (acquire lease_id service_id impacted ttl moment leases).1).0
        ≡ raised refusal)
acquire_locks_out lease_id service_id impacted ttl moment leases lease_id' service_id' impacted'
      ttl' moment' shared {lease} granted soon mine yours =
    let after = (acquire lease_id service_id impacted ttl moment leases).1 in
    let (held, members) =
      Holds-acquire lease (service_id ∷ impacted) (prune_expired moment leases)
        (acquire lease_id service_id impacted ttl moment leases)
        (acquire-Outcome lease_id service_id impacted ttl moment leases) granted in
    refused_of_Outcome lease (service_id' ∷ impacted') (prune_expired moment' after) shared
      (acquire lease_id' service_id' impacted' ttl' moment' after)
      (acquire-Outcome lease_id' service_id' impacted' ttl' moment' after)
      (Holds-prune_expired lease moment' after held
        (omega (arith, acquire_expiry lease_id service_id impacted ttl moment leases granted)))
      yours (members shared mine)

erase-insert :
    (k : String) (lease : LockLease) (d : Leases)
    → lookup k d ≡ none
    → (lookup k (insert k lease d) ≡ some lease) × (erase k (insert k lease d) ≡ d)
erase-insert k lease [] new = ground (arith, eq_iff k k)
erase-insert k lease ((j, old) ∷ d) new =
    ground (arith, eq_iff j k, eq_iff k k, erase-insert k lease d)

-- Releasing a lease that was just granted under an identifier not in use succeeds, and leaves the
-- unexpired leases that were there before the call of `acquire`.
pub release-acquire :
    (lease_id service_id : String) (impacted : List String) (ttl moment : ℕ) (leases : Leases)
    {lease : LockLease}
    → lookup lease_id (prune_expired moment leases) ≡ none
    → (acquire lease_id service_id impacted ttl moment leases).0 ≡ ok lease
    → release lease (acquire lease_id service_id impacted ttl moment leases).1
      ≡ (true, prune_expired moment leases)
unfolding acquire release
release-acquire lease_id service_id impacted ttl moment leases {lease} new granted =
    ground (arith, erase-insert lease_id lease (prune_expired moment leases) new)
