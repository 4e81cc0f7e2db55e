-- ===== src/Tests/Control.antt =====
-- A publisher of src/control.rs that has seen a few calls.
use egressy.Base.{ℕ, refl, some, List, [], ◌∷◌, lookup, string_key}
use egressy.Domain.{CheckStatus, critical, SubsystemCheck, Transition}
use egressy.Domain.Aggregate.{derive_aggregate}
use egressy.Control.{
  StatePublisher, Observation, new, previous_of, next_sequence, transition_of, observe, republish,
}
use egressy.Control.Sequence.{
  IsCurrent, Call, observing, mutating, emitting, calls, calls-IsCurrent,
}
use egressy.Tests.Window.{snapshot}

abbrev publisher : StatePublisher Unit
publisher = republish (new snapshot)

abbrev failure : Observation
failure = record {
  id = "gateway.firewall";
  status = CheckStatus.failed;
  impact = critical;
  reason_code = "firewall.missing";
  safe_message = "The table is missing";
  next_attempt_at_unix_ms = some 2000;
  recovery_attempt = some 1;
}

abbrev later : List (ℕ × Call Unit)
later =
    (1000, observing failure)
    ∷ (1100, emitting "dns" "dns.reload" "Reloaded")
    ∷ (1200, mutating (λ s. record s { rest = tt }))
    ∷ []

publisher-IsCurrent : IsCurrent publisher
unfolding republish new derive_aggregate
publisher-IsCurrent = record { published = refl; derived = refl }

calls-IsCurrent_example : IsCurrent (calls later publisher)
calls-IsCurrent_example = calls-IsCurrent later publisher publisher-IsCurrent

abbrev firewall : SubsystemCheck
firewall = previous_of (lookup "gateway.firewall" publisher.inner.checks) failure 1000

abbrev observed : StatePublisher Unit
observed = observe failure 1000 publisher

abbrev fell : Transition
fell = transition_of firewall failure (next_sequence publisher.inner.sequence) 1000
