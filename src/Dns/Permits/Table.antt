-- ===== src/Dns/Permits/Table.antt =====
-- The table of clients of src/dns.rs: who stands in it, and with which counter.
use egressy.Base.{
  ℕ, ◌-◌, ◌<◌, ◌≡◌, refl, sym, ap, ◌∙◌, subst, inl, inr, Bool, not, ◌&&◌, ltb, length, Option, none,
  some, arith, Key, Bool-cases, lookup, lookup-insert, lookup-retain, retain, filter_some,
  insert-Distinct, retain-Distinct, Distinct,
}
use egressy.Dns.Permits.{
  QueryPermits, ClientLoad, client_share, prune, enlist, is_kept, prune_interval,
  max_tracked_clients,
}

-- A client stands once in the table, with a counter that was handed out and that no other client in
-- the table has.
pub record IsListed {Ip : Type 0} ⦃k : Key Ip⦄ (p : QueryPermits Ip) : Type 0 where
  pub once : Distinct p.loads
  pub handed_out :
      (client : Ip) (load : ClientLoad)
      → lookup client p.loads ≡ some load
      → load.in_flight < p.fresh
  pub own :
      (a b : Ip) (load other : ClientLoad)
      → lookup a p.loads ≡ some load
      → lookup b p.loads ≡ some other
      → load.in_flight ≡ other.in_flight
      → a ≡ b

filtered :
    {V : Type 0} (p : V → Bool) (o : Option V) (v : V) → filter_some p o ≡ some v → o ≡ some v
filtered p none v h = h
filtered p (some w) v h = ground (arith, h)

module _ {Ip : Type 0} ⦃k : Key Ip⦄ where
  prune-IsListed : (now : ℕ) (p : QueryPermits Ip) → IsListed p → IsListed (prune now p)
  unfolding prune
  prune-IsListed now p l =
      elim (Bool-cases (not over_capacity && ltb (now - p.pruned_at) prune_interval)) [
        | inl early ↦ rw early l
        | inr due ↦ rw due (record {
          once = retain-Distinct kept p.loads l.once;
          handed_out = λ client load e. l.handed_out client load (found client load e);
          own = λ a b load other e f same.
              l.own a b load other (found a load e) (found b other f) same;
        })
      ]
    where
      over_capacity : Bool
      over_capacity = ltb max_tracked_clients (length p.loads)

      kept : Ip → ClientLoad → Bool
      kept client load = is_kept p.cells over_capacity now load

      found :
          (client : Ip) (load : ClientLoad)
          → lookup client (retain kept p.loads) ≡ some load
          → lookup client p.loads ≡ some load
      found client load e =
          filtered (kept client) (lookup client p.loads) load
            (sym (lookup-retain kept client p.loads l.once) ∙ e)

  enlist-IsListed :
      (o : Option ClientLoad) (client : Ip) (now : ℕ) (p : QueryPermits Ip)
      → lookup client p.loads ≡ o
      → IsListed p
      → IsListed (enlist o client now p).0
  unfolding enlist
  enlist-IsListed none client now p there l = record {
    once = insert-Distinct client (record { in_flight = p.fresh; last_seen = now }) p.loads l.once;
    handed_out = λ c load e. ground (
      arith,
      e,
      lookup-insert client c (record { in_flight = p.fresh; last_seen = now }) p.loads,
      l.handed_out c load,
    );
    own = λ a b load other e f same. ground (
      arith,
      e,
      f,
      same,
      k.beq_iff client a,
      k.beq_iff client b,
      lookup-insert client a (record { in_flight = p.fresh; last_seen = now }) p.loads,
      lookup-insert client b (record { in_flight = p.fresh; last_seen = now }) p.loads,
      l.handed_out a load,
      l.handed_out b other,
      l.own a b load other,
    );
  }
  enlist-IsListed (some old) client now p there l = record {
    once = insert-Distinct client (record old { last_seen = now }) p.loads l.once;
    handed_out = λ c load e. ground (
      arith,
      e,
      there,
      lookup-insert client c (record old { last_seen = now }) p.loads,
      l.handed_out c load,
      l.handed_out client old,
    );
    own = λ a b load other e f same. ground (
      arith,
      e,
      f,
      same,
      there,
      k.beq_iff client a,
      k.beq_iff client b,
      lookup-insert client a (record old { last_seen = now }) p.loads,
      lookup-insert client b (record old { last_seen = now }) p.loads,
      l.own a b load other,
      l.own client b old other,
      l.own a client load old,
    );
  }

  pub share-IsListed :
      (client : Ip) (now : ℕ) (p : QueryPermits Ip)
      → IsListed p
      → IsListed (client_share client now p).0
  unfolding client_share
  share-IsListed client now p l =
      enlist-IsListed (lookup client (prune now p).loads) client now (prune now p) refl
        (prune-IsListed now p l)

  -- The table and the counters handed out are the same.
  pub same-IsListed :
      (q p : QueryPermits Ip) → q.loads ≡ p.loads → q.fresh ≡ p.fresh → IsListed p → IsListed q
  same-IsListed q p loads fresh l = record {
    once = subst Distinct (sym loads) l.once;
    handed_out = λ client load e.
        omega (arith, fresh, l.handed_out client load (ap (λ m. lookup client m) (sym loads) ∙ e));
    own = λ a b load other e f same.
        l.own a b load other (ap (λ m. lookup a m) (sym loads) ∙ e)
          (ap (λ m. lookup b m) (sym loads) ∙ f) same;
  }
