-- ===== src/Domain/Aggregate/Verdicts.antt =====
-- What `derive_aggregate` (src/domain.rs) says of the checks.
use egressy.Base.{
  String, true, false, Option, none, some, [], ◌∷◌, Map, lookup, string_key, if◌then◌else◌, ◌≡◌,
  ◌↔◌, ◌⊎◌, arith,
}
use egressy.Domain.{
  enforced, violated, Availability, unavailable, starting, CheckStatus, critical, SubsystemCheck,
  is_critical,
}
use egressy.Domain.Aggregate.{
  CanonicalSnapshot, protection_of, Troubles, no_troubles, flag, troubles, availability_of,
  derive_aggregate,
}

-- A critical check of the map has one of the statuses.
abbrev pub AnyCritical : (CheckStatus → Type 0) → Map String SubsystemCheck → Type 0
AnyCritical P [] = ⊥
AnyCritical P ((id, check) ∷ r) = ((check.impact ≡ critical) × P check.status) ⊎ AnyCritical P r

abbrev pub IsFailed : CheckStatus → Type 0
IsFailed s = s ≡ CheckStatus.failed

abbrev pub IsHealthy : CheckStatus → Type 0
IsHealthy s = s ≡ CheckStatus.healthy

abbrev pub IsDegraded : CheckStatus → Type 0
IsDegraded s = (s ≡ CheckStatus.degraded) ⊎ (s ≡ CheckStatus.unknown)

abbrev pub IsPending : CheckStatus → Type 0
IsPending s = s ≡ CheckStatus.pending

troubles-IsFailed :
    (f : Troubles) (m : Map String SubsystemCheck)
    → ((troubles f m).critical_failed ≡ true)
      ↔ ((f.critical_failed ≡ true) ⊎ AnyCritical IsFailed m)
unfolding troubles
troubles-IsFailed f [] = ground arith
troubles-IsFailed f ((id, check) ∷ m) =
    ground
      (arith, troubles-IsFailed (if is_critical check.impact then flag check.status f else f) m)

troubles-IsDegraded :
    (f : Troubles) (m : Map String SubsystemCheck)
    → ((troubles f m).critical_degraded ≡ true)
      ↔ ((f.critical_degraded ≡ true) ⊎ AnyCritical IsDegraded m)
unfolding troubles
troubles-IsDegraded f [] = ground arith
troubles-IsDegraded f ((id, check) ∷ m) =
    ground
      (arith, troubles-IsDegraded (if is_critical check.impact then flag check.status f else f) m)

troubles-IsPending :
    (f : Troubles) (m : Map String SubsystemCheck)
    → ((troubles f m).critical_pending ≡ true)
      ↔ ((f.critical_pending ≡ true) ⊎ AnyCritical IsPending m)
unfolding troubles
troubles-IsPending f [] = ground arith
troubles-IsPending f ((id, check) ∷ m) =
    ground
      (arith, troubles-IsPending (if is_critical check.impact then flag check.status f else f) m)

-- The cascade of tests, over three conditions that the flags decide.
verdicts :
    {F D P : Type 0} (f : Troubles)
    → ((f.critical_failed ≡ true) ↔ ((false ≡ true) ⊎ F))
    → ((f.critical_degraded ≡ true) ↔ ((false ≡ true) ⊎ D))
    → ((f.critical_pending ≡ true) ↔ ((false ≡ true) ⊎ P))
    → ((availability_of f ≡ unavailable) ↔ F)
      × ((availability_of f ≡ Availability.degraded) ↔ ((¬ F) × D))
      × ((availability_of f ≡ starting) ↔ ((¬ F) × (¬ D) × P))
      × ((availability_of f ≡ Availability.healthy) ↔ ((¬ F) × (¬ D) × (¬ P)))
verdicts f hf hd hp = ground arith

-- The check is there and has the status.
abbrev pub Has : (CheckStatus → Type 0) → Option SubsystemCheck → Type 0
Has P none = ⊥
Has P (some check) = P check.status

protections :
    (x y : Option SubsystemCheck)
    → ((protection_of x y ≡ enforced) ↔ (Has IsHealthy x × Has IsHealthy y))
      × ((protection_of x y ≡ violated) ↔ (Has IsFailed x ⊎ Has IsFailed y))
unfolding protection_of
protections none none = ground arith
protections none (some b) = ground arith
protections (some a) none = ground arith
protections (some a) (some b) = ground arith

-- While no recovery runs, the gateway is unavailable exactly when a critical check failed; else
-- degraded exactly when a critical check is degraded or unknown; else starting exactly when one is
-- pending; else healthy. Checks that are not critical do not count.
pub availability-derive_aggregate :
    {Rest : Type 0} (s : CanonicalSnapshot Rest)
    → s.recovery.active ≡ false
    → (((derive_aggregate s).availability ≡ unavailable) ↔ AnyCritical IsFailed s.checks)
      × (((derive_aggregate s).availability ≡ Availability.degraded)
          ↔ ((¬ AnyCritical IsFailed s.checks) × AnyCritical IsDegraded s.checks))
      × (((derive_aggregate s).availability ≡ starting) ↔ (
          (¬ AnyCritical IsFailed s.checks)
          × (¬ AnyCritical IsDegraded s.checks)
          × AnyCritical IsPending s.checks))
      × (((derive_aggregate s).availability ≡ Availability.healthy) ↔ (
          (¬ AnyCritical IsFailed s.checks)
          × (¬ AnyCritical IsDegraded s.checks)
          × (¬ AnyCritical IsPending s.checks)))
unfolding derive_aggregate
availability-derive_aggregate s idle = rw idle (
    verdicts (troubles no_troubles s.checks) (troubles-IsFailed no_troubles s.checks)
      (troubles-IsDegraded no_troubles s.checks) (troubles-IsPending no_troubles s.checks))

-- Protection is enforced exactly when the firewall's and the routes' checks are both there and
-- healthy, and violated exactly when one of them is there and failed.
pub protection-derive_aggregate :
    {Rest : Type 0} (s : CanonicalSnapshot Rest)
    → (((derive_aggregate s).protection ≡ enforced) ↔ (
        Has IsHealthy (lookup "gateway.firewall" s.checks)
        × Has IsHealthy (lookup "gateway.routes" s.checks)))
      × (((derive_aggregate s).protection ≡ violated) ↔ (
          Has IsFailed (lookup "gateway.firewall" s.checks)
          ⊎ Has IsFailed (lookup "gateway.routes" s.checks)))
unfolding derive_aggregate
protection-derive_aggregate s =
    protections (lookup "gateway.firewall" s.checks) (lookup "gateway.routes" s.checks)
