-- ===== src/Domain/Window/Fairness.antt =====
-- What `push_transition` (src/domain.rs) keeps of the window.
use egressy.Base.{
  ℕ, zero, suc, ◌+◌, ◌-◌, ◌<◌, ◌≤◌, min, ◌≡◌, refl, String, some, List, [], ◌∷◌, ◌++◌,
  if◌then◌else◌, length, get_elem?, remove_at, length-remove_at, length-append, leb, str_eq, eq_iff,
  arith, Bool-cases, dec_lt, inl, inr, ap, le→leb,
}
use egressy.Domain.{Transition, transition_capacity}
use egressy.Domain.Window.{busiest_components_oldest, make_room, push_transition}
use egressy.Domain.Window.Holdings.{held}
use egressy.Domain.Window.Busiest.{busiest_components_oldest_lem, busiest_components_oldest-ne_none}

get_elem?-lt :
    (ts : List Transition) (i : ℕ) (t : Transition) → get_elem? ts i ≡ some t → i < length ts
get_elem?-lt [] i t e = cc
get_elem?-lt (x ∷ ts) zero t e = omega arith
get_elem?-lt (x ∷ ts) (suc i) t e = omega (arith, get_elem?-lt ts i t e)

held-remove_at :
    (c : String) (ts : List Transition) (i : ℕ) (t : Transition)
    → get_elem? ts i ≡ some t
    → held c (remove_at i ts) + (if str_eq t.component c then 1 else 0) ≡ held c ts
held-remove_at c [] i t e = cc
held-remove_at c (x ∷ ts) zero t e = ground arith
held-remove_at c (x ∷ ts) (suc i) t e = ground (arith, held-remove_at c ts i t e)

pub held-append : (c : String) (ts us : List Transition) → held c (ts ++ us) ≡ held c ts + held c us
held-append c [] us = omega arith
held-append c (t ∷ ts) us = ground (arith, held-append c ts us)

-- One round of the loop takes one entry out.
length-evict :
    (ts : List Transition) (i : ℕ)
    → busiest_components_oldest ts ≡ some i
    → length (remove_at i ts) + 1 ≡ length ts
length-evict ts i e =
    let (t, here, _, _) = busiest_components_oldest_lem ts i e in
    length-remove_at i ts (get_elem?-lt ts i t here)

length-make_room :
    (capacity fuel : ℕ) (ts : List Transition)
    → 0 < capacity
    → length ts ≤ fuel
    → length (make_room capacity fuel ts) ≡ min (length ts) (capacity - 1)
unfolding make_room
length-make_room capacity zero ts pos enough = omega arith
length-make_room capacity (suc fuel) [] pos enough = ground arith
length-make_room capacity (suc fuel) (t ∷ ts) pos enough =
    let (i, e) = busiest_components_oldest-ne_none t ts in
    elim (Bool-cases (leb capacity (length (t ∷ ts)))) [
      | inl full ↦
          rw (full, e)
            (ground (
              arith,
              length-evict (t ∷ ts) i e,
              length-make_room capacity fuel (remove_at i (t ∷ ts)) pos
                  (ground (arith, length-evict (t ∷ ts) i e)),
            ))
      | inr room ↦ rw room (ground arith)
    ]

make_room_roomy :
    (capacity fuel : ℕ) (ts : List Transition)
    → length ts < capacity
    → make_room capacity fuel ts ≡ ts
unfolding make_room
make_room_roomy capacity zero ts h = refl
make_room_roomy capacity (suc fuel) ts h = ground arith

make_room_full :
    (capacity fuel i : ℕ) (ts : List Transition)
    → length ts ≡ capacity
    → busiest_components_oldest ts ≡ some i
    → make_room capacity (suc fuel) ts ≡ remove_at i ts
unfolding make_room
make_room_full capacity fuel i ts full e =
    rw (le→leb capacity (length ts) (omega arith), e)
      (make_room_roomy capacity fuel (remove_at i ts) (omega (arith, length-evict ts i e)))

-- However large the window was, after a push it holds the new transition, and at most 200 entries:
-- one more than before, if that many fit.
pub length-push_transition :
    (ts : List Transition) (t : Transition)
    → length (push_transition ts t) ≡ min (length ts + 1) transition_capacity
unfolding push_transition
length-push_transition ts t = omega (
  arith,
  length-append (make_room transition_capacity (length ts) ts) (t ∷ []),
  length-make_room transition_capacity (length ts) ts (omega arith) (omega arith),
)

-- While the window has room, a push adds the new transition at its end and evicts nothing.
pub push_transition_roomy :
    (ts : List Transition) (t : Transition)
    → length ts < transition_capacity
    → push_transition ts t ≡ ts ++ t ∷ []
unfolding push_transition
push_transition_roomy ts t h = rw (make_room_roomy transition_capacity (length ts) ts h)

-- A full window evicts one entry, that of `busiest_components_oldest`.
pub push_transition_full :
    (ts : List Transition) (t : Transition) (i : ℕ)
    → length ts ≡ transition_capacity
    → busiest_components_oldest ts ≡ some i
    → push_transition ts t ≡ remove_at i ts ++ t ∷ []
unfolding push_transition
push_transition_full ts t i full e = rw (full, make_room_full transition_capacity 199 i ts full e)

held-evict_quiet :
    (ts : List Transition) (c d : String) (i : ℕ)
    → busiest_components_oldest ts ≡ some i
    → held c ts < held d ts
    → held c (remove_at i ts) ≡ held c ts
held-evict_quiet ts c d i e quiet =
    let (t, here, _, most) = busiest_components_oldest_lem ts i e in
    elim (Bool-cases (str_eq t.component c)) [
      | inl own ↦
          absurd (ground (arith, most d, ap (λ k. held k ts) ((eq_iff t.component c).0 own)))
      | inr other ↦ ground (arith, held-remove_at c ts i t here)
    ]

-- In a window of at most 200 entries, a component that has fewer of them than some other component
-- loses none when a transition is pushed.
pub push_transition_keeps_quiet :
    (ts : List Transition) (t : Transition) (c d : String)
    → length ts ≤ transition_capacity
    → held c ts < held d ts
    → held c (push_transition ts t) ≡ held c ts + held c (t ∷ [])
push_transition_keeps_quiet [] t c d fits quiet = absurd (omega arith)
push_transition_keeps_quiet (x ∷ ts) t c d fits quiet =
    let (i, e) = busiest_components_oldest-ne_none x ts in
    elim (dec_lt (length (x ∷ ts)) transition_capacity) [
      | yes room ↦ rw (push_transition_roomy (x ∷ ts) t room) (held-append c (x ∷ ts) (t ∷ []))
      | no full ↦
          rw
            (
              push_transition_full (x ∷ ts) t i (omega arith) e,
              held-append c (remove_at i (x ∷ ts)) (t ∷ []),
            )
            (ap (λ k. k + held c (t ∷ [])) (held-evict_quiet (x ∷ ts) c d i e quiet))
    ]
