-- ===== src/Domain/Aggregate.antt =====
-- `CanonicalSnapshot` and its `derive_aggregate`, src/domain.rs.
pub mod Verdicts
use egressy.Base.{
  ℕ, String, Bool, true, false, ◌&&◌, ◌||◌, Option, none, some, List, [], ◌∷◌, Map, lookup,
  string_key, if◌then◌else◌,
}
use egressy.Domain.{
  Protection, enforced, violated, Availability, unavailable, starting, recovering, CheckStatus,
  Impact, SubsystemCheck, Transition, is_healthy, is_failed, is_critical,
}

pub record RecoveryStatus : Type 0 where
  pub active : Bool
  pub attempt : ℕ
  pub reason_code : Option String
  pub next_attempt_at_unix_ms : Option ℕ

-- `CanonicalSnapshot`. `Rest` stands for the fields that are only carried (Domain/Status): the port forwards, the
-- external probes, the server, the policies, the topology, the clients and their traffic.
pub record CanonicalSnapshot (Rest : Type 0) : Type 0 where
  pub schema_version : ℕ
  pub sequence : ℕ
  pub generated_at_unix_ms : ℕ
  pub protection : Protection
  pub availability : Availability
  pub checks : Map String SubsystemCheck
  pub transitions : List Transition
  pub recovery : RecoveryStatus
  pub rest : Rest

-- The `match` on the firewall and the routes.
unfoldable pub protection_of : Option SubsystemCheck → Option SubsystemCheck → Protection
protection_of (some a) (some b) =
    if is_healthy a.status && is_healthy b.status
    then enforced
    else (if is_failed a.status || is_failed b.status then violated else Protection.unknown)
protection_of (some a) none = if is_failed a.status then violated else Protection.unknown
protection_of none (some b) = if is_failed b.status then violated else Protection.unknown
protection_of none none = Protection.unknown

-- The three flags of the loop over the critical checks.
pub record Troubles : Type 0 where
  pub critical_failed : Bool
  pub critical_degraded : Bool
  pub critical_pending : Bool

abbrev pub no_troubles : Troubles
no_troubles = record {
  critical_failed = false;
  critical_degraded = false;
  critical_pending = false;
}

abbrev pub flag : CheckStatus → Troubles → Troubles
flag CheckStatus.failed f = record f { critical_failed = true }
flag CheckStatus.degraded f = record f { critical_degraded = true }
flag CheckStatus.unknown f = record f { critical_degraded = true }
flag CheckStatus.pending f = record f { critical_pending = true }
flag CheckStatus.healthy f = f

unfoldable pub troubles : Troubles → Map String SubsystemCheck → Troubles
troubles f [] = f
troubles f ((id, check) ∷ r) =
    troubles (if is_critical check.impact then flag check.status f else f) r

abbrev pub availability_of : Troubles → Availability
availability_of f =
    if f.critical_failed
    then unavailable
    else (if f.critical_degraded
        then Availability.degraded
        else (if f.critical_pending then starting else Availability.healthy))

-- The early `return` leaves the checks unread while a recovery runs.
unfoldable pub derive_aggregate : {Rest : Type 0} → CanonicalSnapshot Rest → CanonicalSnapshot Rest
derive_aggregate s = record s {
  protection =
      protection_of (lookup "gateway.firewall" s.checks) (lookup "gateway.routes" s.checks);
  availability =
      if s.recovery.active then recovering else availability_of (troubles no_troubles s.checks);
}
