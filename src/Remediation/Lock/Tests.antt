-- ===== src/Remediation/Lock/Tests.antt =====
-- The lock manager at concrete inputs.
use engineering_intelligence.Base.{◌≡◌, refl, true, [], ◌∷◌}
use engineering_intelligence.Base.Result.{ok, raised}
use engineering_intelligence.Base.Sort.{sorted}
use engineering_intelligence.Remediation.Lock.{
  LockLease, Leases, acquire, release, prune_expired, first_refusal, intersection, to_set,
}
use engineering_intelligence.Remediation.Lock.Exclusion.{IsExclusive, Outcome, acquire-Outcome}
use engineering_intelligence.Remediation.Lock.Runs.{
  started, called, acquires, Reached-IsExclusive, release-acquire,
}

abbrev first : LockLease
first = record {
  lease_id = "lease-1";
  service_id = "checkout";
  locked_services = "cart" ∷ "checkout" ∷ [];
  acquired_at = 10;
  expires_at = 40;
}

abbrev held : Leases
held = ("lease-1", first) ∷ []

acquire-first : acquire "lease-1" "checkout" ("cart" ∷ []) 30 10 [] ≡ (ok first, held)
unfolding acquire prune_expired first_refusal sorted to_set
acquire-first = refl

refuse_second :
    acquire "lease-2" "search" ("cart" ∷ []) 30 20 held
    ≡ (raised (record { conflicting_service = "cart"; active_lease_id = "lease-1" }), held)
unfolding acquire prune_expired first_refusal sorted to_set intersection
refuse_second = refl

acquire-Outcome_example :
    Outcome
      ("search" ∷ "cart" ∷ [])
      (prune_expired 20 held)
      (acquire "lease-2" "search" ("cart" ∷ []) 30 20 held)
acquire-Outcome_example = acquire-Outcome "lease-2" "search" ("cart" ∷ []) 30 20 held

Reached-IsExclusive_example : IsExclusive (acquire "lease-1" "checkout" ("cart" ∷ []) 30 10 []).1
Reached-IsExclusive_example =
    Reached-IsExclusive (called started (acquires "lease-1" "checkout" ("cart" ∷ []) 30 10 refl))

release-acquire_example :
    release first (acquire "lease-1" "checkout" ("cart" ∷ []) 30 10 []).1
    ≡ (true, prune_expired 10 [])
release-acquire_example =
    release-acquire "lease-1" "checkout" ("cart" ∷ []) 30 10 [] {lease = first}
      (unfold prune_expired in refl)
      (unfold acquire prune_expired first_refusal sorted to_set in refl)
