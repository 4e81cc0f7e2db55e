-- ===== src/Dns/Health.antt =====
-- `DnsHealthState` of src/dns.rs: the debounced verdict on the resolver. The counters and
-- thresholds are u32, `recent` is a u128.
pub mod Outcomes
pub mod Episode
use egressy.Base.{
  ℕ, zero, suc, ◌+◌, ◌-◌, ◌*◌, ◌/◌, ◌%◌, ◌^◌, min, Bool, true, false, ◌&&◌, ◌||◌, Option, none,
  some, ltb, leb, if◌then◌else◌, is_some, saturating_add_u32, List, [], ◌∷◌,
}

pub data DebouncedStatus : Type 0 where
  unknown healthy degraded : DebouncedStatus

pub data Failure : Type 0 where
  upstream admission : Failure

pub record Verdict : Type 0 where
  pub status : DebouncedStatus
  pub cause : Option Failure

abbrev pub degraded_dwell : ℕ
degraded_dwell = 60_000_000_000

abbrev pub recovery_window : ℕ
recovery_window = 128

abbrev pub recovery_min_samples : ℕ
recovery_min_samples = 32

abbrev pub recovery_failure_ratio : ℕ
recovery_failure_ratio = 8

abbrev pub health_republish_interval : ℕ
health_republish_interval = 30_000_000_000

pub record DnsHealthState : Type 0 where
  pub status : DebouncedStatus
  pub consecutive_failures : ℕ
  pub consecutive_successes : ℕ
  pub failure_threshold : ℕ
  pub success_threshold : ℕ
  pub recent : ℕ
  pub recent_len : ℕ
  pub degraded_cause : Option Failure
  pub degraded_since : Option ℕ
  pub published_at : Option ℕ

unfoldable pub new : ℕ → ℕ → DnsHealthState
new failure_threshold success_threshold = record {
  status = unknown;
  consecutive_failures = 0;
  consecutive_successes = 0;
  failure_threshold = failure_threshold;
  success_threshold = success_threshold;
  recent = 0;
  recent_len = 0;
  degraded_cause = none;
  degraded_since = none;
  published_at = none;
}

-- `count_ones`, over so many bits.
pub ones : ℕ → ℕ → ℕ
ones zero n = 0
ones (suc bits) n = n % 2 + ones bits (n / 2)

unfoldable pub count_ones : ℕ → ℕ
unfolding ones
count_ones n = ones 128 n

abbrev pub is_degraded : DebouncedStatus → Bool
is_degraded degraded = true
is_degraded _ = false

abbrev pub is_unknown : DebouncedStatus → Bool
is_unknown unknown = true
is_unknown _ = false

-- `u128::from(failure.is_some())`.
abbrev pub bit : Bool → ℕ
bit true = 1
bit false = 0

unfoldable pub enter :
    DebouncedStatus → Option Failure → ℕ → DnsHealthState → DnsHealthState × Option Verdict
enter status cause now s = (
  record s {
    status = status;
    degraded_cause = cause;
    degraded_since = if is_degraded status then some now else none;
    published_at = some now;
  },
  some (record { status = status; cause = cause }),
)

-- The guard of the `match` on `published_at`.
abbrev pub published_within : Option ℕ → ℕ → Bool
published_within none now = false
published_within (some at) now = ltb (now - at) health_republish_interval

unfoldable pub reaffirm : ℕ → DnsHealthState → DnsHealthState × Option Verdict
reaffirm now s =
    if is_unknown s.status
    then (s, none)
    else (if published_within s.published_at now then (s, none) else (
      record s { published_at = some now },
      some (record { status = s.status; cause = s.degraded_cause }),
    ))

unfoldable pub trouble_has_passed : DnsHealthState → Bool
trouble_has_passed s =
    leb recovery_min_samples s.recent_len
    && leb (count_ones s.recent * recovery_failure_ratio) s.recent_len

abbrev pub degraded_for : ℕ → DnsHealthState → ℕ
degraded_for now s = elim s.degraded_since [ none ↦ 0 | some since ↦ now - since ]

-- The guard on the way from degraded to healthy.
unfoldable pub may_recover : ℕ → DnsHealthState → Bool
unfolding trouble_has_passed
may_recover now s =
    leb s.success_threshold s.consecutive_successes
    && trouble_has_passed s
    && leb degraded_dwell (degraded_for now s)

-- The two arms of `record`, once the outcome is in `recent` and in the counters.
unfoldable pub on_success : DebouncedStatus → ℕ → DnsHealthState → DnsHealthState × Option Verdict
unfolding enter reaffirm
on_success unknown now s = enter healthy none now s
on_success healthy now s = reaffirm now s
on_success degraded now s = if may_recover now s then enter healthy none now s else reaffirm now s

unfoldable pub on_failure :
    DebouncedStatus → Failure → ℕ → DnsHealthState → DnsHealthState × Option Verdict
unfolding enter reaffirm
on_failure degraded cause now s = reaffirm now s
on_failure _ cause now s =
    if leb s.failure_threshold s.consecutive_failures
    then enter degraded (some cause) now s
    else reaffirm now s

-- `recent << 1 | failed`, and the saturating length of the window.
unfoldable pub shifted : Bool → DnsHealthState → DnsHealthState
shifted failed s = record s {
  recent = (s.recent * 2) % 2 ^ 128 + bit failed;
  recent_len = min (saturating_add_u32 s.recent_len 1) recovery_window;
}

unfoldable pub succeeded : DnsHealthState → DnsHealthState
unfolding shifted
succeeded s = record (shifted false s) {
  consecutive_failures = 0;
  consecutive_successes = saturating_add_u32 s.consecutive_successes 1;
}

unfoldable pub failed : DnsHealthState → DnsHealthState
unfolding shifted
failed s = record (shifted true s) {
  consecutive_successes = 0;
  consecutive_failures = saturating_add_u32 s.consecutive_failures 1;
}

-- `DnsHealthState::record`.
unfoldable pub note : Option Failure → ℕ → DnsHealthState → DnsHealthState × Option Verdict
unfolding on_success on_failure succeeded failed
note none now s = on_success s.status now (succeeded s)
note (some cause) now s = on_failure s.status cause now (failed s)

-- The outcomes of a stretch of queries, oldest first, with the verdicts that were published.
unfoldable pub notes : List (Option Failure × ℕ) → DnsHealthState → DnsHealthState
unfolding note
notes [] s = s
notes ((outcome, now) ∷ r) s = notes r (note outcome now s).0
