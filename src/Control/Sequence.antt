-- ===== src/Control/Sequence.antt =====
-- The publisher of src/control.rs over any sequence of its calls.
use egressy.Base.{ℕ, ◌≤◌, ◌≡◌, refl, String, List, [], ◌∷◌, string_key, length, arith}
use egressy.Domain.{transition_capacity}
use egressy.Domain.Window.Order.{Below, Increasing}
use egressy.Domain.Aggregate.{CanonicalSnapshot, derive_aggregate}
use egressy.Control.{StatePublisher, Observation, observe, mutate, emit}

-- The window and the events sent are in the order of their numbers, none past the snapshot's.
pub record IsOrdered {Rest : Type 0} (p : StatePublisher Rest) : Type 0 where
  pub increasing : Increasing p.inner.transitions
  pub below : Below p.inner.sequence p.inner.transitions
  pub window : length p.inner.transitions ≤ transition_capacity
  pub sent_increasing : Increasing p.events
  pub sent_below : Below p.inner.sequence p.events

-- The watchers have the state behind the lock, its aggregate derived from its checks.
pub record IsCurrent {Rest : Type 0} (p : StatePublisher Rest) : Type 0 where
  pub published : p.snapshots ≡ p.inner
  pub derived : derive_aggregate p.inner ≡ p.inner

module _ {Rest : Type 0} where
  emit-IsCurrent :
      (component reason_code safe_message : String) (now : ℕ) (p : StatePublisher Rest)
      → IsCurrent p
      → IsCurrent (emit component reason_code safe_message now p)
  unfolding emit derive_aggregate
  emit-IsCurrent component reason_code safe_message now p c = record {
    published = refl;
    derived = ground (arith, c.derived);
  }

-- The calls that other tasks make; the update of `mutate` is theirs.
pub data Call (Rest : Type 0) : Type 0 where
  observing : Observation → Call Rest
  mutating : (CanonicalSnapshot Rest → CanonicalSnapshot Rest) → Call Rest
  emitting : String → String → String → Call Rest

pub call : {Rest : Type 0} → ℕ → Call Rest → StatePublisher Rest → StatePublisher Rest
call now (observing o) p = observe o now p
call now (mutating update) p = mutate update now p
call now (emitting component reason_code safe_message) p =
    emit component reason_code safe_message now p

pub calls : {Rest : Type 0} → List (ℕ × Call Rest) → StatePublisher Rest → StatePublisher Rest
unfolding call
calls [] p = p
calls ((now, c) ∷ cs) p = calls cs (call now c p)

-- An update that leaves the number and the window of transitions alone.
abbrev pub KeepsLog : {Rest : Type 0} → ℕ × Call Rest → Type 0
KeepsLog {Rest} (now, mutating update) =
    (s : CanonicalSnapshot Rest)
    → ((update s).sequence ≡ s.sequence) × ((update s).transitions ≡ s.transitions)
KeepsLog (now, observing o) = Unit
KeepsLog (now, emitting component reason_code safe_message) = Unit

module _ {Rest : Type 0} where
  call-IsCurrent :
      (now : ℕ) (c : Call Rest) (p : StatePublisher Rest) → IsCurrent p → IsCurrent (call now c p)
  unfolding call observe mutate derive_aggregate
  call-IsCurrent now (observing o) p h = record { published = refl; derived = refl }
  call-IsCurrent now (mutating update) p h = record { published = refl; derived = refl }
  call-IsCurrent now (emitting component reason_code safe_message) p h =
      emit-IsCurrent component reason_code safe_message now p h

  -- Once the aggregate is derived, after any calls a watcher has the state behind the lock, and its
  -- aggregate is that of its own checks and recovery.
  pub calls-IsCurrent :
      (cs : List (ℕ × Call Rest)) (p : StatePublisher Rest) → IsCurrent p → IsCurrent (calls cs p)
  unfolding calls
  calls-IsCurrent [] p h = h
  calls-IsCurrent ((now, c) ∷ cs) p h = calls-IsCurrent cs (call now c p) (call-IsCurrent now c p h)
