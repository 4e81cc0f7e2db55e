-- ===== src/Dns/Health/Episode.antt =====
-- When the verdict of `DnsHealthState` (src/dns.rs) changes, and what holds while it does not.
use egressy.Base.{
  ℕ, ◌+◌, ◌<◌, ◌≤◌, ◌≡◌, ◌≢◌, ◌↔◌, ◌⊎◌, true, Option, none, some, is_some, List, [], ◌∷◌, arith,
  All,
}
use egressy.Dns.Health.{
  unknown, degraded, Failure, Verdict, degraded_dwell, health_republish_interval, DnsHealthState,
  new, note, notes, may_recover, trouble_has_passed,
}

-- A degraded verdict has its cause and its start, no other has; one is published once there is one.
pub record IsConsistent (s : DnsHealthState) : Type 0 where
  pub since : (s.status ≡ degraded) ↔ (is_some s.degraded_since ≡ true)
  pub cause : (s.status ≡ degraded) ↔ (is_some s.degraded_cause ≡ true)
  pub published : (s.status ≢ unknown) ↔ (is_some s.published_at ≡ true)

pub new-IsConsistent : (f k : ℕ) → IsConsistent (new f k)
unfolding new
new-IsConsistent f k = ground arith

note-IsConsistent :
    (o : Option Failure) (now : ℕ) (s : DnsHealthState)
    → IsConsistent s
    → IsConsistent (note o now s).0
unfolding note may_recover
note-IsConsistent none now s c = ground arith
note-IsConsistent (some x) now s c = ground arith

pub notes-IsConsistent :
    (os : List (Option Failure × ℕ)) (s : DnsHealthState)
    → IsConsistent s
    → IsConsistent (notes os s)
unfolding notes
notes-IsConsistent [] s c = c
notes-IsConsistent ((o, now) ∷ os) s c =
    notes-IsConsistent os (note o now s).0 (note-IsConsistent o now s c)

-- The episode that began at a time, for a cause, still runs.
pub record IsEpisode (since : ℕ) (cause : Failure) (s : DnsHealthState) : Type 0 where
  pub status : s.status ≡ degraded
  pub started : s.degraded_since ≡ some since
  pub blamed : s.degraded_cause ≡ some cause

note-IsEpisode :
    (o : Option Failure) (now since : ℕ) (cause : Failure) (s : DnsHealthState)
    → now < since + degraded_dwell
    → IsEpisode since cause s
    → IsEpisode since cause (note o now s).0
unfolding note may_recover trouble_has_passed
note-IsEpisode none now since cause s early e = ground arith
note-IsEpisode (some x) now since cause s early e = ground arith

-- Whatever the outcomes are, a degraded verdict stays for 60 seconds, with its start and its cause.
pub notes-IsEpisode :
    (os : List (Option Failure × ℕ)) (since : ℕ) (cause : Failure) (s : DnsHealthState)
    → All (λ o. o.1 < since + degraded_dwell) os
    → IsEpisode since cause s
    → IsEpisode since cause (notes os s)
unfolding notes
notes-IsEpisode [] since cause s early e = e
notes-IsEpisode ((o, now) ∷ os) since cause s early e =
    notes-IsEpisode os since cause (note o now s).0 early.1
      (note-IsEpisode o now since cause s early.0 e)

-- A verdict that is not degraded has fewer failures behind it than the threshold.
pub record IsAlert (threshold : ℕ) (s : DnsHealthState) : Type 0 where
  pub kept : s.failure_threshold ≡ threshold
  pub watched : (s.status ≡ degraded) ⊎ (s.consecutive_failures < threshold)

note-IsAlert :
    (o : Option Failure) (now threshold : ℕ) (s : DnsHealthState)
    → 0 < threshold
    → IsAlert threshold s
    → IsAlert threshold (note o now s).0
unfolding note may_recover
note-IsAlert none now threshold s pos a = ground arith
note-IsAlert (some x) now threshold s pos a = ground arith

pub new-IsAlert : (f k : ℕ) → 0 < f → IsAlert f (new f k)
unfolding new
new-IsAlert f k pos = ground arith

pub notes-IsAlert :
    (os : List (Option Failure × ℕ)) (threshold : ℕ) (s : DnsHealthState)
    → 0 < threshold
    → IsAlert threshold s
    → IsAlert threshold (notes os s)
unfolding notes
notes-IsAlert [] threshold s pos a = a
notes-IsAlert ((o, now) ∷ os) threshold s pos a =
    notes-IsAlert os threshold (note o now s).0 pos (note-IsAlert o now threshold s pos a)

-- A verdict that repeats the status is published 30 seconds after the last one, or later.
pub repeats_late :
    (o : Option Failure) (now at : ℕ) (s : DnsHealthState) (v : Verdict)
    → s.published_at ≡ some at
    → (note o now s).1 ≡ some v
    → v.status ≡ s.status
    → s.status ≢ unknown
    → at + health_republish_interval ≤ now
unfolding note
repeats_late none now at s v p e same known = ground arith
repeats_late (some c) now at s v p e same known = ground arith

-- A verdict is published as the state then holds it, at the time of the outcome.
pub publishes_state :
    (o : Option Failure) (now : ℕ) (s : DnsHealthState) (v : Verdict)
    → (note o now s).1 ≡ some v
    → let q = (note o now s).0 in
      (v.status ≡ q.status) × (v.cause ≡ q.degraded_cause) × (q.published_at ≡ some now)
unfolding note
publishes_state none now s v e = ground arith
publishes_state (some c) now s v e = ground arith

-- An outcome that changes the status publishes a verdict.
pub publishes_changes :
    (o : Option Failure) (now : ℕ) (s : DnsHealthState)
    → (note o now s).0.status ≢ s.status
    → is_some (note o now s).1 ≡ true
unfolding note
publishes_changes none now s = ground arith
publishes_changes (some c) now s = ground arith
