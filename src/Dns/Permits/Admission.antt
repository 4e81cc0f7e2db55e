-- ===== src/Dns/Permits/Admission.antt =====
-- Who is admitted and who is refused (src/dns.rs), with no other task between the steps of
-- `try_acquire`.
use egressy.Base.{
  ℕ, ◌+◌, ◌-◌, ◌^◌, ◌<◌, ◌≤◌, ◌≡◌, refl, ◌∙◌, ◌↔◌, ◌⊎◌, inl, inr, Bool, true, false, not, ◌&&◌,
  Option, none, some, ltb, arith, Key, Bool-cases, lookup, Distinct, lookup-retain, filter_some,
  length,
}
use egressy.Dns.Permits.{
  QueryPermits, ClientLoad, Refusal, client_limit, global_limit, admission_limit, admit,
  try_acquire, client_share, prune, enlist, is_kept, max_tracked_clients, prune_interval,
}
use egressy.Dns.Permits.Limits.{IsConfigured, admission_limit_bounds}

-- How many queries of a client hold a slot.
abbrev pub load_of : (ℕ → ℕ) → Option ClientLoad → ℕ
load_of cells none = 0
load_of cells (some load) = cells load.in_flight

abbrev pub in_flight : {Ip : Type 0} ⦃k : Key Ip⦄ → Ip → QueryPermits Ip → ℕ
in_flight client p = load_of p.cells (lookup client p.loads)

load_of-filter :
    (cells : ℕ → ℕ) (over : Bool) (now : ℕ) (o : Option ClientLoad)
    → load_of cells (filter_some (is_kept cells over now) o) ≡ load_of cells o
load_of-filter cells over now none = refl
load_of-filter cells over now (some load) = ground arith

module _ {Ip : Type 0} ⦃k : Key Ip⦄ where
  -- Forgetting idle clients forgets no query in flight, of any client.
  pub in_flight-prune :
      (client : Ip) (now : ℕ) (p : QueryPermits Ip)
      → Distinct p.loads
      → in_flight client (prune now p) ≡ in_flight client p
  unfolding prune
  in_flight-prune client now p d =
      elim (Bool-cases (
        not (ltb max_tracked_clients (length p.loads)) && ltb (now - p.pruned_at) prune_interval)) [
          | inl early ↦ rw early refl
          | inr due ↦ rw due (
              rw
                (lookup-retain
                  (λ c l. is_kept p.cells (ltb max_tracked_clients (length p.loads)) now l) client
                  p.loads d)
                (load_of-filter p.cells (ltb max_tracked_clients (length p.loads)) now
                  (lookup client p.loads)))
        ]

  free-client_share :
      (client : Ip) (now : ℕ) (p : QueryPermits Ip)
      → let r = (client_share client now p).0 in
        (r.free ≡ p.free)
        × (r.global_limit ≡ p.global_limit)
        × (r.fixed_per_client ≡ p.fixed_per_client)
        × (r.borrow_reserve ≡ p.borrow_reserve)
  unfolding client_share
  free-client_share client now p = ground arith

  enlist-cell :
      (o : Option ClientLoad) (client : Ip) (now : ℕ) (q : QueryPermits Ip)
      → (enlist o client now q).0.cells (enlist o client now q).1 ≡ load_of q.cells o
  unfolding enlist
  enlist-cell none client now q = ground arith
  enlist-cell (some load) client now q = refl

  -- The counter that `try_acquire` claims from holds the client's queries in flight.
  cell-client_share :
      (client : Ip) (now : ℕ) (p : QueryPermits Ip)
      → Distinct p.loads
      → (client_share client now p).0.cells (client_share client now p).1 ≡ in_flight client p
  unfolding client_share
  cell-client_share client now p d =
      enlist-cell (lookup client (prune now p).loads) client now (prune now p)
      ∙ in_flight-prune client now p d

abbrev pub is_admitted : ℕ ⊎ Refusal → Bool
is_admitted (inl counter) = true
is_admitted (inr why) = false

module _ {Ip : Type 0} where
  module _ (counter active : ℕ) (p : QueryPermits Ip) (n f : ℕ) (used : p.cells counter ≡ n)
      (free : p.free ≡ f) where
    admit_outcome :
        ((is_admitted (admit counter active p).1 ≡ true)
          ↔ ((n < admission_limit active p) × (0 < f)))
        × (((admit counter active p).1 ≡ inr client_limit) ↔ (admission_limit active p ≤ n))
        × (((admit counter active p).1 ≡ inr global_limit)
            ↔ ((n < admission_limit active p) × (f ≡ 0)))
    unfolding admit
    admit_outcome = ground arith

    admit_refused :
        (why : Refusal) (c : ℕ)
        → n < 2 ^ 64
        → (admit counter active p).1 ≡ inr why
        → ((admit counter active p).0.free ≡ f) × ((admit counter active p).0.cells c ≡ p.cells c)
    unfolding admit
    admit_refused why c small e = (ground arith, ground arith)

    admit_admitted :
        is_admitted (admit counter active p).1 ≡ true
        → ((admit counter active p).0.free + 1 ≡ f)
          × ((admit counter active p).0.cells counter ≡ n + 1)
          × ((admit counter active p).1 ≡ inl counter)
    unfolding admit
    admit_admitted e = ground arith

module _ {Ip : Type 0} ⦃k : Key Ip⦄ (client : Ip) (now : ℕ) (p : QueryPermits Ip) where
  -- The bound that this query is held against: that of the clients then there.
  abbrev pub bound_of : ℕ
  bound_of = let (r, counter, active) = client_share client now p in admission_limit active r

  -- A query is admitted exactly when its client has fewer in flight than its bound and a permit is
  -- free; it is refused for its client exactly when the client is at its bound, and for the global
  -- budget exactly when it is not and no permit is free.
  pub try_acquire_outcome :
      Distinct p.loads
      → ((is_admitted (try_acquire client now p).1 ≡ true)
          ↔ ((in_flight client p < bound_of) × (0 < p.free)))
        × (((try_acquire client now p).1 ≡ inr client_limit) ↔ (bound_of ≤ in_flight client p))
        × (((try_acquire client now p).1 ≡ inr global_limit)
            ↔ ((in_flight client p < bound_of) × (p.free ≡ 0)))
  unfolding try_acquire
  try_acquire_outcome d =
      let (r, counter, active) = client_share client now p in
      admit_outcome counter active r (in_flight client p) p.free (cell-client_share client now p d)
        (free-client_share client now p).0

  same_limits-IsConfigured : IsConfigured p → IsConfigured (client_share client now p).0
  same_limits-IsConfigured c =
      let (_, g, f, _) = free-client_share client now p in
      record { positive = rw g c.positive; ceiling = λ fixed e. rw g (c.ceiling fixed (rw f at e)) }

  -- A client with nothing in flight is never refused while a permit is free.
  pub quiet_client_admitted :
      Distinct p.loads
      → IsConfigured p
      → in_flight client p ≡ 0
      → 0 < p.free
      → is_admitted (try_acquire client now p).1 ≡ true
  quiet_client_admitted d c quiet free =
      let (r, counter, active) = client_share client now p in
      (try_acquire_outcome d).0.1
        (omega (arith, (admission_limit_bounds active r (same_limits-IsConfigured c)).0), free)

  -- Without a fixed ceiling, while more permits are free than the reserve, a client that has not the
  -- whole budget in flight is admitted: nobody is refused what is idle.
  pub idle_capacity_lent :
      Distinct p.loads
      → p.fixed_per_client ≡ none
      → p.borrow_reserve < p.free
      → in_flight client p < p.global_limit
      → is_admitted (try_acquire client now p).1 ≡ true
  unfolding admission_limit
  idle_capacity_lent d derived idle few =
      let (f, g, x, b) = free-client_share client now p in
      (try_acquire_outcome d).0.1 (ground arith, omega arith)

  -- A refused query leaves the free permits as they were, and every counter as it was once the
  -- client was enlisted. The client's count is below 2 ^ 64.
  pub refused_unchanged :
      (why : Refusal) (c : ℕ)
      → Distinct p.loads
      → in_flight client p < 2 ^ 64
      → (try_acquire client now p).1 ≡ inr why
      → let r = (try_acquire client now p).0 in
        (r.free ≡ p.free) × (r.cells c ≡ (client_share client now p).0.cells c)
  unfolding try_acquire
  refused_unchanged why c d small e =
      let (q, counter, active) = client_share client now p in
      admit_refused counter active q (in_flight client p) p.free (cell-client_share client now p d)
        (free-client_share client now p).0 why c small e

  -- An admitted query takes one permit and one slot of its client's counter.
  pub admitted_takes :
      Distinct p.loads
      → is_admitted (try_acquire client now p).1 ≡ true
      → let (q, counter, active) = client_share client now p in
        let r = (try_acquire client now p).0 in
        (r.free + 1 ≡ p.free)
        × (r.cells counter ≡ in_flight client p + 1)
        × ((try_acquire client now p).1 ≡ inl counter)
  unfolding try_acquire
  admitted_takes d e =
      let (q, counter, active) = client_share client now p in
      admit_admitted counter active q (in_flight client p) p.free (cell-client_share client now p d)
        (free-client_share client now p).0 e
