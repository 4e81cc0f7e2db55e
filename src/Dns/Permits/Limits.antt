-- ===== src/Dns/Permits/Limits.antt =====
-- The bound that a client is admitted against (src/dns.rs).
use egressy.Base.{
  ℕ, ◌/◌, ◌<◌, ◌≤◌, min, max, ◌≡◌, refl, ◌⊎◌, inl, inr, Option, none, some, ltb, arith,
  Option-cases, Bool-cases, ltb→lt,
}
use egressy.Dns.Permits.{QueryPermits, new, share_of, limit_for, admission_limit}

-- The bounds that `new` sets, and that nothing changes.
pub record IsConfigured {Ip : Type 0} (p : QueryPermits Ip) : Type 0 where
  pub positive : 0 < p.global_limit
  pub ceiling :
      (fixed : ℕ) → p.fixed_per_client ≡ some fixed → (0 < fixed) × (fixed ≤ p.global_limit)

share_of_bounds :
    (active budget : ℕ)
    → 0 < budget
    → (0 < share_of active budget) × (share_of active budget ≤ budget)
share_of_bounds active budget pos = (omega arith, omega arith)

-- The floor of 64 is cut to the budget first, and the share after it: that is the same.
share_of_lem :
    (active budget : ℕ)
    → 0 < active
    → share_of active budget ≡ min (max (budget / active) 64) budget
share_of_lem active budget pos = let e : max active 1 ≡ active = omega arith in rw e (omega arith)

module _ {Ip : Type 0} where
  pub new-IsConfigured :
      (global : ℕ) (per_client : Option ℕ) (now : ℕ)
      → IsConfigured (new {Ip = Ip} global per_client now)
  unfolding new
  new-IsConfigured global none now = record {
    positive = omega arith;
    ceiling = λ fixed e. ground arith;
  }
  new-IsConfigured global (some limit) now = record {
    positive = omega arith;
    ceiling = λ fixed e. ground arith;
  }

  limit_for_bounds :
      (active : ℕ) (p : QueryPermits Ip)
      → IsConfigured p
      → (0 < limit_for active p) × (limit_for active p ≤ p.global_limit)
  unfolding limit_for
  limit_for_bounds active p c = elim (Option-cases p.fixed_per_client) [
    | inl e ↦ rw e (share_of_bounds active p.global_limit c.positive)
    | inr (fixed, e) ↦ rw e (c.ceiling fixed e)
  ]

  -- Whatever is free and whoever is there, every client may have at least one query in flight, and
  -- none may have more than the global budget.
  pub admission_limit_bounds :
      (active : ℕ) (p : QueryPermits Ip)
      → IsConfigured p
      → (0 < admission_limit active p) × (admission_limit active p ≤ p.global_limit)
  unfolding admission_limit
  admission_limit_bounds active p c = ground (arith, limit_for_bounds active p c, c.positive)

  -- Without a fixed ceiling the bound is the whole budget while more permits are free than the
  -- reserve; else it is the budget divided by the clients that are there, but at least 64, or the
  -- budget if that is smaller.
  pub admission_limit_derived :
      (active : ℕ) (p : QueryPermits Ip)
      → IsConfigured p
      → p.fixed_per_client ≡ none
      → 0 < active
      → ((p.borrow_reserve < p.free) × (admission_limit active p ≡ p.global_limit))
        ⊎ ((p.free ≤ p.borrow_reserve)
            × (admission_limit active p ≡ min (max (p.global_limit / active) 64) p.global_limit))
  unfolding admission_limit limit_for
  admission_limit_derived active p c e pos = elim (Bool-cases (ltb p.borrow_reserve p.free)) [
    | inl much ↦ inl (ltb→lt _ _ much, rw (e, much) refl)
    | inr little ↦ inr (ground arith, rw (e, little) (share_of_lem active p.global_limit pos))
  ]
