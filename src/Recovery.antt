-- ===== src/Recovery.antt =====
-- src/recovery.rs: the delay before the next attempt, in seconds. The jitter is drawn at random from
-- a range; here it is an argument, and the range is a bound on it.
use egressy.Base.{
  ℕ, zero, suc, ◌+◌, ◌-◌, ◌/◌, ◌^◌, ◌≤◌, min, max, none, some, List, [], ◌∷◌, get_elem?,
  saturating_add_u64, saturating_mul_u64, ◌≡◌, ap, arith, u64_max,
}

abbrev pub backoff : List ℕ
backoff = 2 ∷ 5 ∷ 10 ∷ 30 ∷ 60 ∷ []

-- `saturating_sub(1) as usize`.
abbrev pub index_of : ℕ → ℕ
index_of zero = zero
index_of (suc n) = n

unfoldable pub base_delay : ℕ → ℕ → ℕ
base_delay attempt maximum =
    let index = index_of attempt in
    min
      (elim (get_elem? backoff index) [
        | some seconds ↦ seconds
        | none ↦ saturating_mul_u64 60 (2 ^ min (index - 4) 2)
      ])
      maximum

-- The jitter is in `0..=jitter_range`.
abbrev pub jitter_range : ℕ → ℕ → ℕ
jitter_range attempt maximum = max (base_delay attempt maximum / 5) 1

unfoldable pub retry_delay_seconds : ℕ → ℕ → ℕ → ℕ
unfolding base_delay
retry_delay_seconds attempt maximum jitter =
    min (saturating_add_u64 (base_delay attempt maximum) jitter) maximum

-- Where in the schedule an attempt is; from the seventh on the delay is 240 seconds.
abbrev pub schedule : ℕ → ℕ
schedule zero = 2
schedule (suc zero) = 2
schedule (suc (suc zero)) = 5
schedule (suc (suc (suc zero))) = 10
schedule (suc (suc (suc (suc zero)))) = 30
schedule (suc (suc (suc (suc (suc zero))))) = 60
schedule (suc (suc (suc (suc (suc (suc zero)))))) = 120
schedule (suc (suc (suc (suc (suc (suc (suc n))))))) = 240

base_delay-schedule :
    (attempt maximum : ℕ) → base_delay attempt maximum ≡ min (schedule attempt) maximum
unfolding base_delay
base_delay-schedule zero maximum = omega arith
base_delay-schedule (suc zero) maximum = omega arith
base_delay-schedule (suc (suc zero)) maximum = omega arith
base_delay-schedule (suc (suc (suc zero))) maximum = omega arith
base_delay-schedule (suc (suc (suc (suc zero)))) maximum = omega arith
base_delay-schedule (suc (suc (suc (suc (suc zero))))) maximum = omega arith
base_delay-schedule (suc (suc (suc (suc (suc (suc zero)))))) maximum = omega arith
base_delay-schedule (suc (suc (suc (suc (suc (suc (suc n))))))) maximum =
    let doublings : min (suc (suc (suc (suc (suc (suc n))))) - 4) 2 ≡ 2 = omega arith in
    ap (λ k. min (saturating_mul_u64 60 (2 ^ k)) maximum) doublings

-- The delay is never above the maximum, never below the scheduled one cut to the maximum, and at
-- most a fifth of that, or one second, above it. The jitter is in its range.
pub retry_delay_seconds_bounds :
    (attempt maximum jitter : ℕ)
    → maximum ≤ u64_max
    → jitter ≤ jitter_range attempt maximum
    → let delay = retry_delay_seconds attempt maximum jitter in
      let least = min (schedule attempt) maximum in
      (delay ≤ maximum) × (least ≤ delay) × (delay ≤ least + max (least / 5) 1)
unfolding retry_delay_seconds
retry_delay_seconds_bounds attempt maximum jitter small drawn =
    let e = base_delay-schedule attempt maximum in
    (omega arith, omega (arith, e), omega (arith, e, drawn))
