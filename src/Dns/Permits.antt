-- ===== src/Dns/Permits.antt =====
-- `QueryPermits` of src/dns.rs: admission control for forwarded queries. The counters that the
-- clients' loads and the slots share are cells of a heap. An address of a client is any key type.
pub mod Limits
pub mod Admission
pub mod Table
pub mod Interleaving
use egressy.Base.{
  ℕ, zero, suc, ◌+◌, ◌-◌, ◌/◌, ◌%◌, ◌^◌, min, max, Bool, true, false, not, ◌&&◌, ◌||◌, Option, none,
  some, List, [], ltb, leb, ◌==◌, if◌then◌else◌, ◌⊎◌, inl, inr, is_some, length, Map, Key, lookup,
  insert, retain, clamp,
}

abbrev pub min_client_share : ℕ
min_client_share = 64

abbrev pub client_idle_after : ℕ
client_idle_after = 60_000_000_000

abbrev pub borrow_reserve_divisor : ℕ
borrow_reserve_divisor = 4

abbrev pub prune_interval : ℕ
prune_interval = 1_000_000_000

abbrev pub max_tracked_clients : ℕ
max_tracked_clients = 1024

-- `ClientLoad`: `in_flight` is the address of the client's counter.
pub record ClientLoad : Type 0 where
  pub in_flight : ℕ
  pub last_seen : ℕ

-- `QueryPermits` with its `ClientTable`. `free` is the semaphore's number of free permits; the
-- counters live in `cells`, of which those from `fresh` on are not allocated.
pub record QueryPermits (Ip : Type 0) : Type 0 where
  pub free : ℕ
  pub global_limit : ℕ
  pub loads : Map Ip ClientLoad
  pub pruned_at : ℕ
  pub fixed_per_client : Option ℕ
  pub borrow_reserve : ℕ
  pub cells : ℕ → ℕ
  pub fresh : ℕ

abbrev pub clamped : ℕ → Option ℕ → Option ℕ
clamped hi none = none
clamped hi (some limit) = some (clamp limit 1 hi)

unfoldable pub new : {Ip : Type 0} → ℕ → Option ℕ → ℕ → QueryPermits Ip
new global per_client now =
    let budget = max global 1 in
    record {
      free = budget;
      global_limit = budget;
      loads = [];
      pruned_at = now;
      fixed_per_client = clamped budget per_client;
      borrow_reserve = max (budget / borrow_reserve_divisor) 1;
      cells = λ a. 0;
      fresh = 0;
    }

-- A store into one cell.
abbrev pub update : (ℕ → ℕ) → ℕ → ℕ → ℕ → ℕ
update cells a v b = if b == a then v else cells b

pub data Refusal : Type 0 where
  global_limit client_limit : Refusal

-- The share of the budget, between its floor and the budget.
abbrev pub share_of : ℕ → ℕ → ℕ
share_of active_clients budget =
    clamp (budget / max active_clients 1) (min min_client_share budget) budget

-- The test of `retain` in `prune`.
abbrev pub is_kept : (ℕ → ℕ) → Bool → ℕ → ClientLoad → Bool
is_kept cells over_capacity now load =
    ltb 0 (cells load.in_flight)
    || (not over_capacity && ltb (now - load.last_seen) client_idle_after)

module _ {Ip : Type 0} where
  unfoldable pub limit_for : ℕ → QueryPermits Ip → ℕ
  limit_for active_clients p = elim p.fixed_per_client [
    | some fixed ↦ fixed
    | none ↦ share_of active_clients p.global_limit
  ]

  unfoldable pub admission_limit : ℕ → QueryPermits Ip → ℕ
  admission_limit active_clients p =
      if is_some p.fixed_per_client
      then limit_for active_clients p
      else (if ltb p.borrow_reserve p.free then p.global_limit else limit_for active_clients p)

  unfoldable pub prune : ⦃k : Key Ip⦄ → ℕ → QueryPermits Ip → QueryPermits Ip
  prune now p =
      let over_capacity = ltb max_tracked_clients (length p.loads) in
      if not over_capacity && ltb (now - p.pruned_at) prune_interval then p else record p {
        loads = retain (λ client load. is_kept p.cells over_capacity now load) p.loads;
        pruned_at = now;
      }

  -- `entry(client).or_insert_with(..)`, then `last_seen = now`: the counter of the client.
  unfoldable pub enlist :
      ⦃k : Key Ip⦄ → Option ClientLoad → Ip → ℕ → QueryPermits Ip → QueryPermits Ip × ℕ
  enlist none client now p = (
    record p {
      loads = insert client (record { in_flight = p.fresh; last_seen = now }) p.loads;
      cells = update p.cells p.fresh 0;
      fresh = suc p.fresh;
    },
    p.fresh,
  )
  enlist (some load) client now p =
      (record p { loads = insert client (record load { last_seen = now }) p.loads }, load.in_flight)

  -- `client_share`: the counter, and how many clients use the forwarder.
  unfoldable pub client_share : ⦃k : Key Ip⦄ → Ip → ℕ → QueryPermits Ip → QueryPermits Ip × ℕ × ℕ
  unfolding prune enlist
  client_share client now p =
      let q = prune now p in
      let (r, counter) = enlist (lookup client q.loads) client now q in (r, counter, length r.loads)

  -- `claim`, in the round of its loop that ends it.
  unfoldable pub claim : ℕ → ℕ → QueryPermits Ip → Option (QueryPermits Ip)
  claim counter limit p =
      if leb limit (p.cells counter)
      then none
      else some (record p { cells = update p.cells counter (p.cells counter + 1) })

  -- `drop` of a `ClientSlot`: `fetch_sub` on a `usize` wraps.
  unfoldable pub drop_slot : ℕ → QueryPermits Ip → QueryPermits Ip
  drop_slot counter p = record p {
    cells = update p.cells counter ((p.cells counter + 2 ^ 64 - 1) % 2 ^ 64);
  }

  -- `try_acquire_owned`, and the drop of a permit.
  unfoldable pub take_global : QueryPermits Ip → Option (QueryPermits Ip)
  take_global p = if p.free == 0 then none else some (record p { free = p.free - 1 })

  unfoldable pub drop_global : QueryPermits Ip → QueryPermits Ip
  drop_global p = record p { free = p.free + 1 }

  -- `try_acquire` with no other task between its steps; a slot that found no permit is dropped. The
  -- result is the counter of the slot.
  unfoldable pub admit : ℕ → ℕ → QueryPermits Ip → QueryPermits Ip × (ℕ ⊎ Refusal)
  unfolding claim drop_slot take_global
  admit counter active_clients p = elim (claim counter (admission_limit active_clients p) p) [
    | none ↦ (p, inr client_limit)
    | some q ↦ elim (take_global q) [
      | none ↦ (drop_slot counter q, inr global_limit)
      | some r ↦ (r, inl counter)
    ]
  ]

  unfoldable pub try_acquire :
      ⦃k : Key Ip⦄ → Ip → ℕ → QueryPermits Ip → QueryPermits Ip × (ℕ ⊎ Refusal)
  unfolding admit
  try_acquire client now p =
      let (q, counter, active_clients) = client_share client now p in admit counter active_clients q
