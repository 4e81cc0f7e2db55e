-- ===== src/Control.antt =====
-- src/control.rs: the publisher of the canonical snapshot. `now` is `unix_ms()`, read once at the
-- start of each call; the lock makes the calls a sequence.
pub mod Sequence
pub mod Checks
use egressy.Base.{
  ℕ, ◌+◌, ◌%◌, ◌^◌, String, Bool, true, false, not, ◌&&◌, ◌||◌, Option, none, some, List, [], ◌∷◌,
  ◌++◌, Map, lookup, insert, string_key, saturating_add_u32, str_eq, if◌then◌else◌,
}
use egressy.Domain.{
  CheckStatus, Impact, SubsystemCheck, Transition, pending_check, is_failing, status_eq,
}
use egressy.Domain.Window.{push_transition}
use egressy.Domain.Aggregate.{CanonicalSnapshot, derive_aggregate}

-- `StatePublisher`: the state behind the lock, the value of the `watch` channel, and all that was
-- sent to the `broadcast` channel, oldest first.
pub record StatePublisher (Rest : Type 0) : Type 0 where
  pub inner : CanonicalSnapshot Rest
  pub snapshots : CanonicalSnapshot Rest
  pub events : List Transition

unfoldable pub new : {Rest : Type 0} → CanonicalSnapshot Rest → StatePublisher Rest
new initial =
    let s = record initial { schema_version = 2 } in
    record { inner = s; snapshots = s; events = [] }

-- The arguments of `observe`.
pub record Observation : Type 0 where
  pub id : String
  pub status : CheckStatus
  pub impact : Impact
  pub reason_code : String
  pub safe_message : String
  pub next_attempt_at_unix_ms : Option ℕ
  pub recovery_attempt : Option ℕ

-- `checks.get(id)`, or the pending check.
abbrev pub previous_of : Option SubsystemCheck → Observation → ℕ → SubsystemCheck
previous_of none o now = pending_check o.id o.impact now
previous_of (some check) o now = check

abbrev pub is_changed : SubsystemCheck → Observation → Bool
is_changed previous o =
    not (status_eq previous.status o.status) || not (str_eq previous.reason_code o.reason_code)

unfoldable pub checked : SubsystemCheck → Observation → ℕ → SubsystemCheck
checked previous o now = record {
  id = o.id;
  status = o.status;
  impact = o.impact;
  observed_at_unix_ms = now;
  changed_at_unix_ms = if is_changed previous o then now else previous.changed_at_unix_ms;
  reason_code = o.reason_code;
  safe_message = o.safe_message;
  consecutive_failures =
      if is_failing o.status then saturating_add_u32 previous.consecutive_failures 1 else 0;
  next_attempt_at_unix_ms = o.next_attempt_at_unix_ms;
}

-- `sequence += 1` on a `u64`.
abbrev pub next_sequence : ℕ → ℕ
next_sequence n = (n + 1) % 2 ^ 64

unfoldable pub transition_of : SubsystemCheck → Observation → ℕ → ℕ → Transition
transition_of previous o sequence now = record {
  sequence = sequence;
  timestamp_unix_ms = now;
  component = o.id;
  from_status = previous.status;
  to_status = o.status;
  reason_code = o.reason_code;
  safe_message = o.safe_message;
  recovery_attempt = o.recovery_attempt;
}

-- The transition of `emit`: it stays healthy.
unfoldable pub emitted : String → String → String → ℕ → ℕ → Transition
emitted component reason_code safe_message sequence now = record {
  sequence = sequence;
  timestamp_unix_ms = now;
  component = component;
  from_status = CheckStatus.healthy;
  to_status = CheckStatus.healthy;
  reason_code = reason_code;
  safe_message = safe_message;
  recovery_attempt = none;
}

module _ {Rest : Type 0} where
  -- `push_transition` and `events.send` of one transition.
  unfoldable pub send : Transition → StatePublisher Rest → StatePublisher Rest
  send t p = record p {
    inner = record p.inner {
      sequence = t.sequence;
      transitions = push_transition p.inner.transitions t;
    };
    events = p.events ++ t ∷ [];
  }

  -- `derive_aggregate` and `snapshots.send_replace`.
  unfoldable pub republish : StatePublisher Rest → StatePublisher Rest
  republish p = record p { inner = derive_aggregate p.inner; snapshots = derive_aggregate p.inner }

  -- `observe` with the previous check at hand.
  unfoldable pub observe_after :
      SubsystemCheck → Observation → ℕ → StatePublisher Rest → StatePublisher Rest
  unfolding send republish
  observe_after previous o now p =
      let q = record p {
        inner = record p.inner {
          checks = insert o.id (checked previous o now) p.inner.checks;
          generated_at_unix_ms = now;
        };
      } in
      republish (
        if is_changed previous o
        then send (transition_of previous o (next_sequence p.inner.sequence) now) q
        else q)

  unfoldable pub observe : Observation → ℕ → StatePublisher Rest → StatePublisher Rest
  unfolding observe_after
  observe o now p = observe_after (previous_of (lookup o.id p.inner.checks) o now) o now p

  unfoldable pub mutate :
      (CanonicalSnapshot Rest → CanonicalSnapshot Rest)
      → ℕ
      → StatePublisher Rest
      → StatePublisher Rest
  unfolding republish
  mutate update now p =
      republish (record p { inner = record (update p.inner) { generated_at_unix_ms = now } })

  -- `emit` sends the state as it is: no check has changed.
  unfoldable pub emit : String → String → String → ℕ → StatePublisher Rest → StatePublisher Rest
  unfolding send
  emit component reason_code safe_message now p =
      let t = emitted component reason_code safe_message (next_sequence p.inner.sequence) now in
      let q = send t (record p { inner = record p.inner { generated_at_unix_ms = now } }) in
      record q { snapshots = q.inner }
