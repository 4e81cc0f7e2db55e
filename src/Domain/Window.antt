-- ===== src/Domain/Window.antt =====
-- `push_transition` and `busiest_components_oldest` of src/domain.rs: the window of recent
-- transitions, which evicts from the component that fills the most of it.
pub mod Holdings
pub mod Busiest
pub mod Fairness
pub mod Order
use egressy.Base.{
  ℕ, zero, suc, ◌+◌, String, Bool, true, false, ◌&&◌, ◌||◌, Option, none, some, List, [], ◌∷◌, ◌++◌,
  Map, lookup, insert, string_key, ltb, leb, ◌==◌, if◌then◌else◌, length, remove_at,
}
use egressy.Domain.{Transition, transition_capacity}

-- What the loop has counted of one component: how many entries, and the index of the first.
pub record Holding : Type 0 where
  pub count : ℕ
  pub oldest : ℕ

-- `entry(component).or_insert((0, index))`, then `entry.0 += 1`.
abbrev pub counted : Option Holding → ℕ → Holding
counted none index = record { count = 1; oldest = index }
counted (some h) index = record h { count = h.count + 1 }

-- The loop over the window, from an index on.
unfoldable pub tally : ℕ → List Transition → Map String Holding → Map String Holding
tally index [] holdings = holdings
tally index (t ∷ ts) holdings =
    tally (suc index) ts (insert t.component (counted (lookup t.component holdings) index) holdings)

-- The order of `(count, Reverse(oldest))`: `max_by_key` takes the last of the greatest.
abbrev pub outranks : Holding → Holding → Bool
outranks a b = ltb b.count a.count || (a.count == b.count && leb a.oldest b.oldest)

unfoldable pub busiest : Holding → Map String Holding → Holding
busiest best [] = best
busiest best ((c, h) ∷ r) = busiest (if outranks h best then h else best) r

unfoldable pub oldest_of_busiest : Map String Holding → Option ℕ
unfolding busiest
oldest_of_busiest [] = none
oldest_of_busiest ((c, h) ∷ r) = some (busiest h r).oldest

unfoldable pub busiest_components_oldest : List Transition → Option ℕ
unfolding tally oldest_of_busiest
busiest_components_oldest ts = oldest_of_busiest (tally 0 ts [])

-- The `while` loop; each round removes an entry, so the window's length is fuel enough.
pub make_room : ℕ → ℕ → List Transition → List Transition
make_room capacity zero ts = ts
make_room capacity (suc fuel) ts =
    if leb capacity (length ts)
    then (elim (busiest_components_oldest ts) [
      | none ↦ ts
      | some index ↦ make_room capacity fuel (remove_at index ts)
    ])
    else ts

-- The oldest entry comes first.
unfoldable pub push_transition : List Transition → Transition → List Transition
unfolding make_room busiest_components_oldest
push_transition ts t = make_room transition_capacity (length ts) ts ++ t ∷ []
