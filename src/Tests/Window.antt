-- ===== src/Tests/Window.antt =====
-- A noisy and a quiet component in the window of src/domain.rs, and the checks of a gateway.
use egressy.Base.{
  ℕ, ◌<◌, ◌≤◌, ◌≡◌, refl, ◌↔◌, ◌⊎◌, String, false, none, some, List, [], ◌∷◌, get_elem?, arith,
  lookup, insert, string_key, Map,
}
use egressy.Domain.{
  Protection, Availability, unavailable, starting, CheckStatus, Impact, critical, advisory,
  SubsystemCheck, Transition,
}
use egressy.Domain.Window.{
  busiest_components_oldest, tally, oldest_of_busiest, busiest, push_transition,
}
use egressy.Domain.Window.Holdings.{held, first_of}
use egressy.Domain.Window.Busiest.{busiest_components_oldest_lem}
use egressy.Domain.Window.Fairness.{push_transition_keeps_quiet}
use egressy.Domain.Aggregate.{CanonicalSnapshot, derive_aggregate}
use egressy.Domain.Aggregate.Verdicts.{
  availability-derive_aggregate, AnyCritical, IsFailed, IsDegraded, IsPending,
}

abbrev pub change_of : String → ℕ → Transition
change_of component sequence = record {
  sequence = sequence;
  timestamp_unix_ms = 1000;
  component = component;
  from_status = CheckStatus.healthy;
  to_status = CheckStatus.failed;
  reason_code = "probe.failed";
  safe_message = "The probe failed";
  recovery_attempt = none;
}

abbrev pub window : List Transition
window = change_of "vpn" 1 ∷ change_of "dns" 2 ∷ change_of "dns" 3 ∷ []

busiest_of_window : busiest_components_oldest window ≡ some 1
unfolding busiest_components_oldest tally oldest_of_busiest busiest lookup insert
busiest_of_window = refl

busiest_components_oldest_lem_example :
    (t : Transition) × (get_elem? window 1 ≡ some t)
    × (first_of t.component window ≡ 1)
    × ((d : String)
        → (held d window < held t.component window)
          ⊎ ((held d window ≡ held t.component window) × (1 ≤ first_of d window)))
busiest_components_oldest_lem_example = busiest_components_oldest_lem window 1 busiest_of_window

push_transition_keeps_quiet_example : held "vpn" (push_transition window (change_of "vpn" 4)) ≡ 2
push_transition_keeps_quiet_example =
    push_transition_keeps_quiet window (change_of "vpn" 4) "vpn" "dns" (omega arith) (omega arith)

abbrev pub check_of : String → CheckStatus → Impact → SubsystemCheck
check_of id status impact = record {
  id = id;
  status = status;
  impact = impact;
  observed_at_unix_ms = 900;
  changed_at_unix_ms = 800;
  reason_code = "seen";
  safe_message = "Seen";
  consecutive_failures = 0;
  next_attempt_at_unix_ms = none;
}

abbrev pub checks : Map String SubsystemCheck
checks =
    ("gateway.firewall", check_of "gateway.firewall" CheckStatus.healthy critical)
    ∷ ("gateway.routes", check_of "gateway.routes" CheckStatus.failed critical)
    ∷ ("probe", check_of "probe" CheckStatus.failed advisory)
    ∷ []

abbrev pub snapshot : CanonicalSnapshot Unit
snapshot = record {
  schema_version = 2;
  sequence = 3;
  generated_at_unix_ms = 900;
  protection = Protection.unknown;
  availability = starting;
  checks = checks;
  transitions = window;
  recovery = record {
    active = false;
    attempt = 0;
    reason_code = none;
    next_attempt_at_unix_ms = none;
  };
  rest = tt;
}

abbrev derived : CanonicalSnapshot Unit
derived = derive_aggregate snapshot

availability-derive_aggregate_example :
    ((derived.availability ≡ unavailable) ↔ AnyCritical IsFailed checks)
    × ((derived.availability ≡ Availability.degraded)
        ↔ ((¬ AnyCritical IsFailed checks) × AnyCritical IsDegraded checks))
    × ((derived.availability ≡ starting) ↔ (
        (¬ AnyCritical IsFailed checks)
        × (¬ AnyCritical IsDegraded checks)
        × AnyCritical IsPending checks))
    × ((derived.availability ≡ Availability.healthy) ↔ (
        (¬ AnyCritical IsFailed checks)
        × (¬ AnyCritical IsDegraded checks)
        × (¬ AnyCritical IsPending checks)))
availability-derive_aggregate_example = availability-derive_aggregate snapshot refl
