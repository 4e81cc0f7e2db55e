-- ===== src/Tests/Permits.antt =====
-- A budget of 100 queries of src/dns.rs and two clients: one of them has 90 queries in flight.
use egressy.Base.{
  ◌<◌, ◌≤◌, ◌≡◌, refl, ◌↔◌, inr, true, none, some, ℕ, ◌+◌, [], ◌∷◌, String, string_key, lookup,
  insert, retain, arith, Distinct, if◌then◌else◌, ◌==◌,
}
use egressy.Dns.Permits.{
  QueryPermits, client_limit, global_limit, new, try_acquire, client_share, prune, enlist, admit,
  claim, update, take_global, admission_limit, limit_for,
}
use egressy.Dns.Permits.Limits.{IsConfigured}
use egressy.Dns.Permits.Admission.{
  in_flight, is_admitted, bound_of, try_acquire_outcome, quiet_client_admitted,
}
use egressy.Dns.Permits.Interleaving.{World, shares, claims, Steps, here, next, Inv, reachable-Inv}

abbrev busy : QueryPermits String
busy = record {
  free = 10;
  global_limit = 100;
  loads =
      ("desk", record { in_flight = 0; last_seen = 5 })
      ∷ ("phone", record { in_flight = 1; last_seen = 7 })
      ∷ [];
  pruned_at = 0;
  fixed_per_client = none;
  borrow_reserve = 25;
  cells = λ c. if c == 0 then 90 else 0;
  fresh = 2;
}

busy-Distinct : Distinct busy.loads
unfolding lookup
busy-Distinct = (refl, (refl, tt))

busy-IsConfigured : IsConfigured busy
busy-IsConfigured = record { positive = omega arith; ceiling = λ fixed e. ground arith }

try_acquire_outcome_example :
    ((is_admitted (try_acquire "desk" 9 busy).1 ≡ true)
      ↔ ((in_flight "desk" busy < bound_of "desk" 9 busy) × (0 < 10)))
    × (((try_acquire "desk" 9 busy).1 ≡ inr client_limit)
        ↔ (bound_of "desk" 9 busy ≤ in_flight "desk" busy))
    × (((try_acquire "desk" 9 busy).1 ≡ inr global_limit)
        ↔ ((in_flight "desk" busy < bound_of "desk" 9 busy) × (busy.free ≡ 0)))
try_acquire_outcome_example = try_acquire_outcome "desk" 9 busy busy-Distinct

quiet_client_admitted_example : is_admitted (try_acquire "phone" 9 busy).1 ≡ true
unfolding lookup
quiet_client_admitted_example =
    quiet_client_admitted "phone" 9 busy busy-Distinct busy-IsConfigured refl (omega arith)

abbrev calm : QueryPermits String
calm = record busy { free = 60 }

desk_refused : (try_acquire "desk" 9 busy).1 ≡ inr client_limit
unfolding try_acquire client_share lookup insert retain prune enlist admit claim take_global
    admission_limit limit_for
desk_refused = refl

-- A ceiling of one slot for each client.
abbrev start : World String
start = record { p = new 100 (some 1) 0; slots = []; permits = 0 }

-- A task asks for its client, and waits; a minute later the table has forgotten the client when
-- another task asks for it. Both then claim a slot: the client has two, of two counters.
abbrev asked : QueryPermits String
asked = (client_share "desk" 3 start.p).0

abbrev asked_again : QueryPermits String
asked_again = (client_share "desk" 61_000_000_003 asked).0

abbrev counted_at : ℕ → QueryPermits String → QueryPermits String
counted_at c p = record p { cells = update p.cells c (p.cells c + 1) }

abbrev both_claimed : World String
both_claimed = record {
  p = counted_at 1 (counted_at 0 asked_again);
  slots = 1 ∷ 0 ∷ [];
  permits = 0;
}

both-Steps : Steps start both_claimed
unfolding new client_share prune enlist claim admission_limit limit_for lookup insert retain
both-Steps =
    next
      (next
        (next (next here (shares start "desk" 3))
          (shares (record start { p = asked }) "desk" 61_000_000_003))
        (claims (record start { p = asked_again }) 0 1 100 (counted_at 0 asked_again) (omega arith)
          refl))
      (claims (record start { p = counted_at 0 asked_again; slots = 0 ∷ [] }) 1 1 100
        (counted_at 1 (counted_at 0 asked_again)) (omega arith) refl)

reachable-Inv_example : Inv both_claimed
reachable-Inv_example = reachable-Inv 100 (some 1) 0 both_claimed (omega arith) both-Steps
