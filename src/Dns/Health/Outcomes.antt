-- ===== src/Dns/Health/Outcomes.antt =====
-- The counters and the bit window of `DnsHealthState` (src/dns.rs) against the plain list of
-- outcomes, newest first, in which `true` is a failure.
use native.Mathlib.Nat.{pow-suc}
use egressy.Base.{
  ℕ, zero, suc, ◌+◌, ◌*◌, ◌/◌, ◌%◌, ◌^◌, ◌<◌, ◌≤◌, min, ◌≡◌, refl, ◌↔◌, ◌≢◌, Bool, true, false,
  Option, none, some, is_some, List, [], ◌∷◌, arith, u32_max, length, take,
}
use egressy.Dns.Health.Episode.{notes-IsAlert, new-IsAlert}
use egressy.Dns.Health.{
  DebouncedStatus, unknown, healthy, degraded, Failure, degraded_dwell, DnsHealthState, bit, ones,
  count_ones, new, note, notes, may_recover, on_success, on_failure, succeeded, failed,
  degraded_for, recovery_window, recovery_min_samples, recovery_failure_ratio,
}

abbrev pub count_true : List Bool → ℕ
count_true [] = 0
count_true (b ∷ h) = bit b + count_true h

-- How many of the newest outcomes in a row are such.
abbrev pub run_of : Bool → List Bool → ℕ
run_of b [] = 0
run_of true (true ∷ h) = suc (run_of true h)
run_of true (false ∷ h) = 0
run_of false (false ∷ h) = suc (run_of false h)
run_of false (true ∷ h) = 0

-- The first outcome is the low bit.
pub pack : List Bool → ℕ
pack [] = 0
pack (b ∷ h) = bit b + 2 * pack h

pack-take_lt : (n : ℕ) (h : List Bool) → pack (take n h) < 2 ^ n
unfolding pack
pack-take_lt zero h = omega arith
pack-take_lt (suc n) [] = rw (pow-suc 2 n) (omega (arith, pack-take_lt n []))
pack-take_lt (suc n) (true ∷ h) = rw (pow-suc 2 n) (omega (arith, pack-take_lt n h))
pack-take_lt (suc n) (false ∷ h) = rw (pow-suc 2 n) (omega (arith, pack-take_lt n h))

-- One more outcome is one more bit at the top.
pack-take-suc :
    (n : ℕ) (h : List Bool)
    → (c : ℕ) × (c ≤ 1) × (pack (take (suc n) h) ≡ pack (take n h) + c * 2 ^ n)
unfolding pack
pack-take-suc zero [] = (0, omega arith, omega arith)
pack-take-suc zero (b ∷ h) = (bit b, ground arith, ground arith)
pack-take-suc (suc n) [] = (0, omega arith, omega arith)
pack-take-suc (suc n) (b ∷ h) =
    let (c, small, e) = pack-take-suc n h in (c, small, rw (pow-suc 2 n) (grind (arith, e)))

ones-pack : (w : ℕ) (h : List Bool) → length h ≤ w → ones w (pack h) ≡ count_true h
unfolding ones pack
ones-pack zero [] le = refl
ones-pack zero (b ∷ h) le = absurd (omega arith)
ones-pack (suc w) [] le = omega (arith, ones-pack w [] (omega arith))
ones-pack (suc w) (true ∷ h) le =
    let e : (1 + 2 * pack h) / 2 ≡ pack h = omega arith in
    rw e (omega (arith, ones-pack w h (omega arith)))
ones-pack (suc w) (false ∷ h) le =
    let e : (0 + 2 * pack h) / 2 ≡ pack h = omega arith in
    rw e (omega (arith, ones-pack w h (omega arith)))

length-take-le {ℓ} : {A : Type ℓ} (n : ℕ) (h : List A) → length (take n h) ≤ n
length-take-le zero h = omega arith
length-take-le (suc n) [] = omega arith
length-take-le (suc n) (b ∷ h) = omega (arith, length-take-le n h)

-- What the state holds of the outcomes so far.
pub record Tracks (h : List Bool) (s : DnsHealthState) : Type 0 where
  pub word : s.recent ≡ pack (take recovery_window h)
  pub measured : s.recent_len ≡ min (length h) recovery_window
  pub failing : s.consecutive_failures ≡ min (run_of true h) u32_max
  pub succeeding : s.consecutive_successes ≡ min (run_of false h) u32_max

shift_word :
    (b : Bool) (h : List Bool)
    → (pack (take recovery_window h) * 2) % 2 ^ 128 + bit b ≡ pack (take recovery_window (b ∷ h))
unfolding pack
shift_word b h =
    let (c, small, e) = pack-take-suc 127 h in omega (arith, pack-take_lt 127 h, e, small)

succeeded-Tracks :
    (h : List Bool) (s : DnsHealthState) → Tracks h s → Tracks (false ∷ h) (succeeded s)
unfolding succeeded
succeeded-Tracks h s t = record {
  word = rw t.word (shift_word false h);
  measured = omega (arith, t.measured);
  failing = omega arith;
  succeeding = omega (arith, t.succeeding);
}

failed-Tracks : (h : List Bool) (s : DnsHealthState) → Tracks h s → Tracks (true ∷ h) (failed s)
unfolding failed
failed-Tracks h s t = record {
  word = rw t.word (shift_word true h);
  measured = omega (arith, t.measured);
  failing = omega (arith, t.failing);
  succeeding = omega arith;
}

-- The verdict leaves the counters alone.
on_success-Tracks :
    (h : List Bool) (now : ℕ) (s : DnsHealthState) (d : DebouncedStatus)
    → Tracks h s
    → Tracks h (on_success d now s).0
unfolding on_success
on_success-Tracks h now s unknown t = record {
  word = t.word;
  measured = t.measured;
  failing = t.failing;
  succeeding = t.succeeding;
}
on_success-Tracks h now s healthy t = ground arith
on_success-Tracks h now s degraded t = ground arith

on_failure-Tracks :
    (h : List Bool) (c : Failure) (now : ℕ) (s : DnsHealthState) (d : DebouncedStatus)
    → Tracks h s
    → Tracks h (on_failure d c now s).0
unfolding on_failure
on_failure-Tracks h c now s degraded t = ground arith
on_failure-Tracks h c now s _ t = ground arith

note-Tracks :
    (h : List Bool) (o : Option Failure) (now : ℕ) (s : DnsHealthState)
    → Tracks h s
    → Tracks (is_some o ∷ h) (note o now s).0
unfolding note
note-Tracks h none now s t =
    on_success-Tracks (false ∷ h) now (succeeded s) s.status (succeeded-Tracks h s t)
note-Tracks h (some c) now s t =
    on_failure-Tracks (true ∷ h) c now (failed s) s.status (failed-Tracks h s t)

-- The outcomes of a stretch of queries, newest first, on top of earlier ones.
abbrev pub history : List (Option Failure × ℕ) → List Bool → List Bool
history [] h = h
history ((o, now) ∷ os) h = history os (is_some o ∷ h)

pub notes-Tracks :
    (os : List (Option Failure × ℕ)) (h : List Bool) (s : DnsHealthState)
    → Tracks h s
    → Tracks (history os h) (notes os s)
unfolding notes
notes-Tracks [] h s t = t
notes-Tracks ((o, now) ∷ os) h s t =
    notes-Tracks os (is_some o ∷ h) (note o now s).0 (note-Tracks h o now s t)

pub new-Tracks : (f k : ℕ) → Tracks [] (new f k)
unfolding new pack
new-Tracks f k = ground arith

-- The ones of the word are the failures among the newest 128 outcomes.
pub Tracks-count_ones :
    (h : List Bool) (s : DnsHealthState)
    → Tracks h s
    → count_ones s.recent ≡ count_true (take recovery_window h)
unfolding count_ones
Tracks-count_ones h s t =
    rw t.word (ones-pack 128 (take recovery_window h) (length-take-le recovery_window h))

may_recover_parts :
    (now : ℕ) (s : DnsHealthState)
    → (may_recover now s ≡ true) ↔ (
        (s.success_threshold ≤ s.consecutive_successes)
        × (recovery_min_samples ≤ s.recent_len)
        × (count_ones s.recent * recovery_failure_ratio ≤ s.recent_len)
        × (degraded_dwell ≤ degraded_for now s))
unfolding may_recover
may_recover_parts now s = ground arith

-- `ones` and `seen` stand for the window's count and length, which are not computed here.
restate :
    (ones seen all n : ℕ)
    → ones ≡ n
    → seen ≡ min all recovery_window
    → ((recovery_min_samples ≤ seen) × (ones * recovery_failure_ratio ≤ seen))
      ↔ ((recovery_min_samples ≤ all) × (n * recovery_failure_ratio ≤ min all recovery_window))
restate ones seen all n e f = ground arith

may_recover_iff :
    (h : List Bool) (now : ℕ) (s : DnsHealthState)
    → Tracks h s
    → (may_recover now s ≡ true) ↔ (
        (s.success_threshold ≤ min (run_of false h) u32_max)
        × (recovery_min_samples ≤ length h)
        × (count_true (take recovery_window h) * recovery_failure_ratio
            ≤ min (length h) recovery_window)
        × (degraded_dwell ≤ degraded_for now s))
may_recover_iff h now s t =
    let (reads, meets) = may_recover_parts now s in
    let (there, back) =
      restate (count_ones s.recent) s.recent_len (length h) (count_true (take recovery_window h))
        (Tracks-count_ones h s t) t.measured in
    (
      λ e.
          let (enough, seen, few, long) = reads e in
          (omega (arith, t.succeeding, enough), (there (seen, few)).0, (there (seen, few)).1, long),
      λ m. meets (omega (arith, t.succeeding, m.0), (back (m.1, m.2)).0, (back (m.1, m.2)).1, m.3),
    )

turns_healthy :
    (now : ℕ) (s : DnsHealthState)
    → s.status ≡ degraded
    → ((note none now s).0.status ≡ healthy) ↔ (may_recover now (succeeded s) ≡ true)
unfolding note
turns_healthy now s d = ground arith

stays_degraded :
    (c : Failure) (now : ℕ) (s : DnsHealthState)
    → s.status ≡ degraded
    → (note (some c) now s).0.status ≢ healthy
unfolding note
stays_degraded c now s d = ground arith

recovers :
    (h : List Bool) (o : Option Failure) (now : ℕ) (s : DnsHealthState)
    → Tracks h s
    → s.status ≡ degraded
    → ((note o now s).0.status ≡ healthy) ↔ (
        (o ≡ none)
        × (s.success_threshold ≤ min (run_of false (is_some o ∷ h)) u32_max)
        × (recovery_min_samples ≤ length (is_some o ∷ h))
        × (count_true (take recovery_window (is_some o ∷ h)) * recovery_failure_ratio
            ≤ min (length (is_some o ∷ h)) recovery_window)
        × (degraded_dwell ≤ degraded_for now s))
unfolding succeeded
recovers h none now s t d =
    let (into, back) = turns_healthy now s d in
    let (reads, meets) = may_recover_iff (false ∷ h) now (succeeded s) (succeeded-Tracks h s t) in
    (
      λ e. (refl, (reads (into e)).0, (reads (into e)).1, (reads (into e)).2, (reads (into e)).3),
      λ m. back (meets (m.1, m.2, m.3, m.4)),
    )
recovers h (some c) now s t d = (λ e. absurd (stays_degraded c now s d e), λ m. cc (m.0))

-- A degraded verdict turns healthy at an outcome exactly when that is a success, the successes in a
-- row reach the threshold, at least 32 outcomes are known, at most one in eight of the newest 128
-- is a failure, and the verdict has stood for 60 seconds. The outcomes are all since the start.
pub recovers_iff :
    (f k : ℕ) (os : List (Option Failure × ℕ)) (o : Option Failure) (now : ℕ)
    → (notes os (new f k)).status ≡ degraded
    → let s = notes os (new f k) in
      let h = history ((o, now) ∷ []) (history os []) in
      ((note o now s).0.status ≡ healthy) ↔ (
        (o ≡ none)
        × (s.success_threshold ≤ min (run_of false h) u32_max)
        × (recovery_min_samples ≤ length h)
        × (count_true (take recovery_window h) * recovery_failure_ratio
            ≤ min (length h) recovery_window)
        × (degraded_dwell ≤ degraded_for now s))
recovers_iff f k os o now bad =
    recovers (history os []) o now (notes os (new f k))
      (notes-Tracks os [] (new f k) (new-Tracks f k)) bad

-- From a start with a failure threshold of at least 1 and at most 2 ^ 32 - 1, when as many of the
-- newest outcomes in a row as the threshold are failures, the verdict is degraded.
pub degrades_in_time :
    (f k : ℕ) (os : List (Option Failure × ℕ))
    → 0 < f
    → f ≤ u32_max
    → f ≤ run_of true (history os [])
    → (notes os (new f k)).status ≡ degraded
degrades_in_time f k os pos small failing = ground (
  arith,
  notes-IsAlert os f (new f k) pos (new-IsAlert f k pos),
  (notes-Tracks os [] (new f k) (new-Tracks f k)).failing,
)
