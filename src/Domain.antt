-- ===== src/Domain.antt =====
-- src/domain.rs: the checks of the subsystems and the transitions between their statuses. Times
-- are milliseconds of the Unix epoch.
pub mod Window
pub mod Aggregate
pub mod Status
use egressy.Base.{ℕ, String, Bool, true, false, Option, none, ◌≡◌, ◌↔◌, arith}

pub data Protection : Type 0 where
  enforced unknown violated : Protection

pub data Availability : Type 0 where
  starting healthy degraded unavailable recovering : Availability

pub data CheckStatus : Type 0 where
  pending healthy degraded failed unknown : CheckStatus

pub data Impact : Type 0 where
  critical advisory optional : Impact

pub record SubsystemCheck : Type 0 where
  pub id : String
  pub status : CheckStatus
  pub impact : Impact
  pub observed_at_unix_ms : ℕ
  pub changed_at_unix_ms : ℕ
  pub reason_code : String
  pub safe_message : String
  pub consecutive_failures : ℕ  -- u32
  pub next_attempt_at_unix_ms : Option ℕ

-- `SubsystemCheck::pending`.
unfoldable pub pending_check : String → Impact → ℕ → SubsystemCheck
pending_check id impact now = record {
  id = id;
  status = CheckStatus.pending;
  impact = impact;
  observed_at_unix_ms = now;
  changed_at_unix_ms = now;
  reason_code = "observation.pending";
  safe_message = "Waiting for the first observation";
  consecutive_failures = 0;
  next_attempt_at_unix_ms = none;
}

pub record Transition : Type 0 where
  pub sequence : ℕ
  pub timestamp_unix_ms : ℕ
  pub component : String
  pub from_status : CheckStatus
  pub to_status : CheckStatus
  pub reason_code : String
  pub safe_message : String
  pub recovery_attempt : Option ℕ

abbrev pub transition_capacity : ℕ
transition_capacity = 200

-- `==` and `matches!` on the enums.
abbrev pub is_healthy : CheckStatus → Bool
is_healthy CheckStatus.healthy = true
is_healthy _ = false

abbrev pub is_failed : CheckStatus → Bool
is_failed CheckStatus.failed = true
is_failed _ = false

-- `Failed | Degraded`.
abbrev pub is_failing : CheckStatus → Bool
is_failing CheckStatus.failed = true
is_failing CheckStatus.degraded = true
is_failing _ = false

abbrev pub is_critical : Impact → Bool
is_critical critical = true
is_critical _ = false

abbrev pub status_eq : CheckStatus → CheckStatus → Bool
status_eq CheckStatus.pending CheckStatus.pending = true
status_eq CheckStatus.healthy CheckStatus.healthy = true
status_eq CheckStatus.degraded CheckStatus.degraded = true
status_eq CheckStatus.failed CheckStatus.failed = true
status_eq CheckStatus.unknown CheckStatus.unknown = true
status_eq _ _ = false

pub status_eq_iff : (s t : CheckStatus) → (status_eq s t ≡ true) ↔ (s ≡ t)
status_eq_iff s t = ground arith
