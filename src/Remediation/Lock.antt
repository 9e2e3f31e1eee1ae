-- ===== src/Remediation/Lock.antt =====
-- remediation/concurrency_lock.py: the in-memory lock manager. Instants and lifetimes are in
-- microseconds; the identifier that `uuid4` gives a lease is an argument; a set is a list without
-- duplicates. `acquire` returns a lease or a refusal, the pair of the code with its one `None`.
pub mod Overlap
pub mod Exclusion
pub mod Runs
mod Tests
use engineering_intelligence.Base.{
  ℕ, ◌+◌, String, Bool, true, false, not, ◌&&◌, Option, none, some, List, [], ◌∷◌, contains, leb,
  if◌then◌else◌,
}
use engineering_intelligence.Base.Dict.{Dict, lookup, insert, erase, is_some}
use engineering_intelligence.Base.Result.{Result, ok, raised}
use engineering_intelligence.Base.Sort.{sorted}

pub record LockLease : Type 0 where
  pub lease_id : String
  pub service_id : String
  pub locked_services : List String
  pub acquired_at : ℕ
  pub expires_at : ℕ

abbrev pub is_expired : ℕ → LockLease → Bool
is_expired now lease = leb lease.expires_at now

pub record LockoutRefusal : Type 0 where
  pub conflicting_service : String
  pub active_lease_id : String

-- `_leases`
abbrev pub Leases : Type 0
Leases = Dict LockLease

unfoldable pub prune_expired : ℕ → Leases → Leases
prune_expired moment [] = []
prune_expired moment ((k, lease) ∷ rest) =
    let kept = prune_expired moment rest in
    if is_expired moment lease then kept else (k, lease) ∷ kept

-- `a.intersection(b)`
unfoldable pub intersection : List String → List String → List String
intersection [] b = []
intersection (x ∷ a) b = let rest = intersection a b in if contains x b then x ∷ rest else rest

-- The members of `set(xs)`.
unfoldable pub to_set : List String → List String
to_set [] = []
to_set (x ∷ xs) = let rest = to_set xs in if contains x xs then rest else x ∷ rest

abbrev pub scope_of : LockLease → List String
scope_of lease = lease.service_id ∷ lease.locked_services

refusal_by : String → List String → Option LockoutRefusal
refusal_by id [] = none
refusal_by id (conflicting ∷ rest) =
    some (record { conflicting_service = conflicting; active_lease_id = id })

or_later : Option LockoutRefusal → Option LockoutRefusal → Option LockoutRefusal
or_later none later = later
or_later (some refusal) later = some refusal

-- The loop of `acquire` over the active leases.
unfoldable pub first_refusal : List String → Leases → Option LockoutRefusal
unfolding refusal_by or_later
first_refusal target [] = none
first_refusal target ((k, lease) ∷ rest) =
    or_later (refusal_by lease.lease_id (sorted (intersection target (scope_of lease))))
      (first_refusal target rest)

new_lease : String → String → List String → ℕ → ℕ → LockLease
new_lease lease_id service_id target ttl moment = record {
  lease_id = lease_id;
  service_id = service_id;
  locked_services = sorted (to_set target);
  acquired_at = moment;
  expires_at = moment + ttl;
}

grant : Option LockoutRefusal → LockLease → Leases → Result LockoutRefusal LockLease × Leases
grant (some refusal) lease active = (raised refusal, active)
grant none lease active = (ok lease, insert lease.lease_id lease active)

unfoldable pub acquire :
    String → String → List String → ℕ → ℕ → Leases → Result LockoutRefusal LockLease × Leases
unfolding new_lease grant
acquire lease_id service_id impacted_services ttl moment leases =
    let active = prune_expired moment leases in
    let target = service_id ∷ impacted_services in
    grant (first_refusal target active) (new_lease lease_id service_id target ttl moment) active

unfoldable pub release : LockLease → Leases → Bool × Leases
release lease leases =
    if is_some (lookup lease.lease_id leases)
    then (true, erase lease.lease_id leases)
    else (false, leases)

unfoldable pub active_leases : ℕ → Leases → Leases
active_leases moment leases = prune_expired moment leases
