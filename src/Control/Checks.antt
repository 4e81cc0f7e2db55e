-- ===== src/Control/Checks.antt =====
-- What one `observe` (src/control.rs) does to the checks and to the log.
use egressy.Base.{
  ℕ, suc, ◌+◌, ◌≤◌, min, ◌≡◌, refl, ap, ◌↔◌, ◌⊎◌, String, true, false, Option, none, some, List, [],
  ◌∷◌, ◌++◌, lookup, insert, string_key, lookup-insert, if◌then◌else◌, arith, Bool-cases, inl, inr,
  eq_iff, str_eq, u32_max, All,
}
use egressy.Domain.{SubsystemCheck, pending_check, is_failing, status_eq_iff}
use egressy.Domain.Window.{push_transition}
use egressy.Domain.Aggregate.{derive_aggregate}
use egressy.Control.{
  StatePublisher, Observation, previous_of, is_changed, checked, next_sequence, transition_of,
  observe,
}

is_changed_iff :
    (previous : SubsystemCheck) (o : Observation)
    → (is_changed previous o ≡ false)
      ↔ ((previous.status ≡ o.status) × (previous.reason_code ≡ o.reason_code))
is_changed_iff previous o =
    ground
      (arith, status_eq_iff previous.status o.status, eq_iff previous.reason_code o.reason_code)

module _ {Rest : Type 0} where
  checks-observe :
      (o : Observation) (now : ℕ) (p : StatePublisher Rest)
      → (observe o now p).inner.checks
        ≡ insert o.id
            (checked (previous_of (lookup o.id p.inner.checks) o now) o now)
            p.inner.checks
  unfolding observe derive_aggregate
  checks-observe o now p = ground arith

  -- After an observation the check is that of its arguments, and no other check has changed. The
  -- failures in a row grow by one, up to the end of a u32, if the status is failed or degraded, and
  -- are 0 otherwise; the time of the last change moves only if the status or the reason changed.
  pub lookup-observe :
      (o : Observation) (now : ℕ) (p : StatePublisher Rest) (id : String)
      → lookup id (observe o now p).inner.checks ≡ (
          if str_eq o.id id
          then some (checked (previous_of (lookup o.id p.inner.checks) o now) o now)
          else lookup id p.inner.checks)
  lookup-observe o now p id = rw (checks-observe o now p) (
      lookup-insert o.id id (checked (previous_of (lookup o.id p.inner.checks) o now) o now)
        p.inner.checks)

  -- The previous check is a pending one if there was none. An observation with its status and its
  -- reason takes no number and leaves the log alone; any other takes the next number, and sends and
  -- keeps one transition, from the old status to the new.
  pub observe_log :
      (o : Observation) (now : ℕ) (p : StatePublisher Rest)
      → let previous = previous_of (lookup o.id p.inner.checks) o now in
        let q = observe o now p in
        let t = transition_of previous o (next_sequence p.inner.sequence) now in
        ((previous.status ≡ o.status)
          × (previous.reason_code ≡ o.reason_code)
          × (q.inner.sequence ≡ p.inner.sequence)
          × (q.inner.transitions ≡ p.inner.transitions)
          × (q.events ≡ p.events))
        ⊎ ((¬ ((previous.status ≡ o.status) × (previous.reason_code ≡ o.reason_code)))
            × (q.inner.sequence ≡ next_sequence p.inner.sequence)
            × (q.inner.transitions ≡ push_transition p.inner.transitions t)
            × (q.events ≡ p.events ++ t ∷ []))
  unfolding observe transition_of derive_aggregate
  observe_log o now p =
      let previous = previous_of (lookup o.id p.inner.checks) o now in
      elim (Bool-cases (is_changed previous o)) [
        | inl e ↦
            inr
              (λ same. cc (e, (is_changed_iff previous o).1 same), rw e refl, rw e refl, rw e refl)
        | inr n ↦ inl (
          ((is_changed_iff previous o).0 n).0,
          ((is_changed_iff previous o).0 n).1,
          rw n refl,
          rw n refl,
          rw n refl,
        )
      ]

-- The failures in a row that the checks hold of one component.
abbrev pub failures_of : Option SubsystemCheck → ℕ
failures_of none = 0
failures_of (some check) = check.consecutive_failures

pub observe_all :
    {Rest : Type 0} → List (ℕ × Observation) → StatePublisher Rest → StatePublisher Rest
observe_all [] p = p
observe_all ((now, o) ∷ os) p = observe_all os (observe o now p)

-- An observation of another component, or a failing one of this.
abbrev pub FailingOf : String → ℕ × Observation → Type 0
FailingOf id (now, o) = (str_eq o.id id ≡ false) ⊎ (is_failing o.status ≡ true)

abbrev pub count_of : String → List (ℕ × Observation) → ℕ
count_of id [] = 0
count_of id ((now, o) ∷ os) = let rest = count_of id os in if str_eq o.id id then suc rest else rest

failures-checked :
    (found : Option SubsystemCheck) (o : Observation) (now : ℕ)
    → is_failing o.status ≡ true
    → (checked (previous_of found o now) o now).consecutive_failures
      ≡ min (failures_of found + 1) u32_max
unfolding checked pending_check
failures-checked none o now failing = ground arith
failures-checked (some check) o now failing = ground arith

module _ {Rest : Type 0} where
  failures-observe :
      (id : String) (now : ℕ) (o : Observation) (p : StatePublisher Rest)
      → FailingOf id (now, o)
      → failures_of (lookup id p.inner.checks) ≤ u32_max
      → failures_of (lookup id (observe o now p).inner.checks)
        ≡ min (failures_of (lookup id p.inner.checks) + count_of id ((now, o) ∷ [])) u32_max
  failures-observe id now o p failing small =
      rw (lookup-observe o now p id) (elim (Bool-cases (str_eq o.id id)) [
        | inl own ↦ rw own (
            ground (
              arith,
              failures-checked (lookup o.id p.inner.checks) o now,
              ap (λ k. failures_of (lookup k p.inner.checks)) ((eq_iff o.id id).0 own),
            ))
        | inr other ↦ rw other (omega arith)
      ])

  -- While no observation of a component succeeds, whatever is observed of the others, its failures
  -- in a row grow by the number of its observations, up to the end of a u32.
  pub failures-observe_all :
      (id : String) (os : List (ℕ × Observation)) (p : StatePublisher Rest)
      → All (FailingOf id) os
      → failures_of (lookup id p.inner.checks) ≤ u32_max
      → failures_of (lookup id (observe_all os p).inner.checks)
        ≡ min (failures_of (lookup id p.inner.checks) + count_of id os) u32_max
  unfolding observe_all
  failures-observe_all id [] p all small = omega arith
  failures-observe_all id ((now, o) ∷ os) p all small = ground (
    arith,
    failures-observe id now o p all.0 small,
    failures-observe_all id os (observe o now p) all.1,
  )
