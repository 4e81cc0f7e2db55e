-- ===== src/Tests/Health.antt =====
-- A resolver of src/dns.rs that fails three times and recovers a minute later.
use egressy.Base.{
  ℕ, ◌*◌, ◌≤◌, min, ◌≡◌, refl, ◌↔◌, true, false, Option, none, some, List, [], ◌∷◌, arith, take,
  length, u32_max,
}
use egressy.Dns.Health.{
  healthy, degraded, Failure, upstream, admission, Verdict, DnsHealthState, new, note, notes,
  recovery_min_samples, recovery_failure_ratio, recovery_window, degraded_dwell, degraded_for,
}
use egressy.Dns.Health.Episode.{notes-IsEpisode, IsEpisode}
use egressy.Dns.Health.Outcomes.{recovers_iff, degrades_in_time, run_of, count_true}

abbrev outage : List (Option Failure × ℕ)
outage = (some upstream, 10) ∷ (some upstream, 20) ∷ (some admission, 30) ∷ []

abbrev fallen : DnsHealthState
fallen = notes outage (new 3 2)

degrades_in_time_example : (notes outage (new 3 2)).status ≡ degraded
degrades_in_time_example = degrades_in_time 3 2 outage (omega arith) (omega arith) (omega arith)

fallen-IsEpisode : IsEpisode 30 admission fallen
unfolding notes note new
fallen-IsEpisode = record { status = refl; started = refl; blamed = refl }

notes-IsEpisode_example :
    IsEpisode 30 admission (notes ((none, 1000) ∷ (none, 2000) ∷ (some upstream, 3000) ∷ []) fallen)
notes-IsEpisode_example =
    notes-IsEpisode ((none, 1000) ∷ (none, 2000) ∷ (some upstream, 3000) ∷ []) 30 admission fallen
      (omega arith, (omega arith, (omega arith, tt))) fallen-IsEpisode

abbrev success : Option Failure
success = none

recovers_iff_example :
    let h = false ∷ true ∷ true ∷ true ∷ [] in
    ((note success 70_000_000_000 fallen).0.status ≡ healthy) ↔ (
      (success ≡ none)
      × (fallen.success_threshold ≤ min (run_of false h) u32_max)
      × (recovery_min_samples ≤ length h)
      × (count_true (take recovery_window h) * recovery_failure_ratio
          ≤ min (length h) recovery_window)
      × (degraded_dwell ≤ degraded_for 70_000_000_000 fallen))
recovers_iff_example = recovers_iff 3 2 outage none 70_000_000_000 degrades_in_time_example

abbrev repeated : Verdict
repeated = record { status = degraded; cause = some admission }
