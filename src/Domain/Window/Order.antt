-- ===== src/Domain/Window/Order.antt =====
-- `push_transition` (src/domain.rs) keeps the entries that stay in their order.
use egressy.Base.{
  ℕ, zero, suc, ◌<◌, ◌≤◌, List, [], ◌∷◌, ◌++◌, length, remove_at, All, All-map, Bool-cases,
  Option-cases, inl, inr, arith, leb,
}
use egressy.Domain.{Transition, transition_capacity}
use egressy.Domain.Window.{busiest_components_oldest, make_room, push_transition}

abbrev pub Below : ℕ → List Transition → Type 0
Below n = All (λ t. t.sequence ≤ n)

abbrev pub After : ℕ → List Transition → Type 0
After n = All (λ t. n < t.sequence)

-- The sequence numbers grow along the list.
abbrev pub Increasing : List Transition → Type 0
Increasing [] = Unit
Increasing (t ∷ ts) = After t.sequence ts × Increasing ts

All-remove_at :
    (P : Transition → Type 0) (i : ℕ) (ts : List Transition) → All P ts → All P (remove_at i ts)
All-remove_at P i [] h = tt
All-remove_at P zero (t ∷ ts) h = h.1
All-remove_at P (suc i) (t ∷ ts) h = (h.0, All-remove_at P i ts h.1)

Increasing-remove_at : (i : ℕ) (ts : List Transition) → Increasing ts → Increasing (remove_at i ts)
Increasing-remove_at i [] h = tt
Increasing-remove_at zero (t ∷ ts) h = h.1
Increasing-remove_at (suc i) (t ∷ ts) h =
    (All-remove_at (λ u. t.sequence < u.sequence) i ts h.0, Increasing-remove_at i ts h.1)

-- What removal of one entry keeps, the loop keeps.
make_room_keeps :
    (P : List Transition → Type 0)
    → ((i : ℕ) (ts : List Transition) → P ts → P (remove_at i ts))
    → (capacity fuel : ℕ) (ts : List Transition) → P ts
    → P (make_room capacity fuel ts)
unfolding make_room
make_room_keeps P step capacity zero ts h = h
make_room_keeps P step capacity (suc fuel) ts h = elim (Bool-cases (leb capacity (length ts))) [
  | inl full ↦ elim (Option-cases (busiest_components_oldest ts)) [
    | inl e ↦ rw (full, e) h
    | inr (i, e) ↦
        rw (full, e) (make_room_keeps P step capacity fuel (remove_at i ts) (step i ts h))
  ]
  | inr room ↦ rw room h
]

All-append_one :
    (P : Transition → Type 0) (ts : List Transition) (t : Transition)
    → All P ts
    → P t
    → All P (ts ++ t ∷ [])
All-append_one P [] t h p = (p, tt)
All-append_one P (u ∷ ts) t h p = (h.0, All-append_one P ts t h.1 p)

pub Below-append :
    (n : ℕ) (ts : List Transition) (t : Transition)
    → Below n ts
    → t.sequence ≤ n
    → Below n (ts ++ t ∷ [])
Below-append n ts t h p = All-append_one (λ u. u.sequence ≤ n) ts t h p

pub Increasing-append :
    (n : ℕ) (ts : List Transition) (t : Transition)
    → Increasing ts
    → Below n ts
    → n < t.sequence
    → Increasing (ts ++ t ∷ [])
Increasing-append n [] t inc h p = (tt, tt)
Increasing-append n (u ∷ ts) t inc h p = (
  All-append_one (λ v. u.sequence < v.sequence) ts t inc.0 (omega (arith, h.0)),
  Increasing-append n ts t inc.1 h.1 p,
)

pub Below-push_transition :
    (n : ℕ) (ts : List Transition) (t : Transition)
    → Below n ts
    → t.sequence ≤ n
    → Below n (push_transition ts t)
unfolding push_transition
Below-push_transition n ts t h p =
    Below-append n _ t
      (make_room_keeps (Below n) (All-remove_at (λ u. u.sequence ≤ n)) transition_capacity
        (length ts) ts h)
      p

pub Increasing-push_transition :
    (n : ℕ) (ts : List Transition) (t : Transition)
    → Increasing ts
    → Below n ts
    → n < t.sequence
    → Increasing (push_transition ts t)
unfolding push_transition
Increasing-push_transition n ts t inc h p =
    Increasing-append n _ t
      (make_room_keeps Increasing Increasing-remove_at transition_capacity (length ts) ts inc)
      (make_room_keeps (Below n) (All-remove_at (λ u. u.sequence ≤ n)) transition_capacity
        (length ts) ts h)
      p

pub Below-le : {n m : ℕ} (ts : List Transition) → n ≤ m → Below n ts → Below m ts
Below-le ts le h = All-map (λ t p. omega (arith, le, p)) ts h
