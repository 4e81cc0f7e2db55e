-- ===== src/Dns/Permits/Interleaving.antt =====
-- Admission (src/dns.rs) when many tasks take its steps in any order: the lock, the counters'
-- exchanges, the semaphore and the drops are one step each.
use egressy.Base.{
  ℕ, zero, suc, ◌+◌, ◌-◌, ◌%◌, ◌^◌, ◌<◌, ◌≤◌, max, ◌≡◌, refl, sym, ap, ◌∙◌, ◌⊎◌, inl, inr, Option,
  none, some, ◌==◌, if◌then◌else◌, arith, List, [], ◌∷◌, Key, Option-cases, lookup, get_elem?,
  remove_at, All, All-map,
}
use egressy.Dns.Permits.{
  QueryPermits, ClientLoad, new, admission_limit, claim, take_global, drop_slot, drop_global,
  client_share, prune, enlist, limit_for,
}
use egressy.Dns.Permits.Table.{IsListed, share-IsListed, same-IsListed}
use egressy.Dns.Permits.Limits.{IsConfigured, new-IsConfigured}

-- The state with what the tasks hold: the counters of their slots, and how many global permits.
pub record World (Ip : Type 0) : Type 0 where
  pub p : QueryPermits Ip
  pub slots : List ℕ
  pub permits : ℕ

-- A claim's limit was computed before, at whatever number of free permits there was then, and its
-- counter was handed out before.
pub data Step {Ip : Type 0} ⦃k : Key Ip⦄ : World Ip → World Ip → Type 0 where
  shares :
      (w : World Ip) (client : Ip) (now : ℕ)
      → Step w (record w { p = (client_share client now w.p).0 })
  claims :
      (w : World Ip) (counter active free_then : ℕ) (q : QueryPermits Ip)
      → counter < w.p.fresh
      → claim counter (admission_limit active (record w.p { free = free_then })) w.p ≡ some q
      → Step w (record w { p = q; slots = counter ∷ w.slots })
  takes :
      (w : World Ip) (q : QueryPermits Ip)
      → take_global w.p ≡ some q
      → Step w (record w { p = q; permits = suc w.permits })
  drops_slot :
      (w : World Ip) (i counter : ℕ)
      → get_elem? w.slots i ≡ some counter
      → Step w (record w { p = drop_slot counter w.p; slots = remove_at i w.slots })
  drops_global :
      (w : World Ip) (n : ℕ)
      → w.permits ≡ suc n
      → Step w (record w { p = drop_global w.p; permits = n })

pub data Steps {Ip : Type 0} ⦃k : Key Ip⦄ (w : World Ip) : World Ip → Type 0 where
  here : Steps w w
  next : {u v : World Ip} → Steps w u → Step u v → Steps w v

abbrev pub occurrences : ℕ → List ℕ → ℕ
occurrences a [] = 0
occurrences a (b ∷ bs) = let rest = occurrences a bs in if b == a then suc rest else rest

-- The highest count that a counter may reach.
abbrev pub ceiling_of : {Ip : Type 0} → QueryPermits Ip → ℕ
ceiling_of p = elim p.fixed_per_client [ none ↦ p.global_limit | some fixed ↦ fixed ]

pub record Inv {Ip : Type 0} ⦃k : Key Ip⦄ (w : World Ip) : Type 0 where
  pub listed : IsListed w.p
  pub configured : IsConfigured w.p
  pub word : w.p.global_limit < 2 ^ 64
  pub budget : w.p.free + w.permits ≡ w.p.global_limit
  pub allocated : All (λ c. c < w.p.fresh) w.slots
  pub counted : (c : ℕ) → w.p.cells c ≡ occurrences c w.slots
  pub bounded : (c : ℕ) → w.p.cells c ≤ ceiling_of w.p

occurrences_fresh : (a n : ℕ) (bs : List ℕ) → n ≤ a → All (λ c. c < n) bs → occurrences a bs ≡ 0
occurrences_fresh a n [] le all = refl
occurrences_fresh a n (b ∷ bs) le all = ground (arith, occurrences_fresh a n bs le all.1, all.0)

occurrences-remove_at :
    (a : ℕ) (bs : List ℕ) (i b : ℕ)
    → get_elem? bs i ≡ some b
    → occurrences a (remove_at i bs) + (if b == a then 1 else 0) ≡ occurrences a bs
occurrences-remove_at a [] i b e = cc
occurrences-remove_at a (x ∷ bs) zero b e = ground arith
occurrences-remove_at a (x ∷ bs) (suc i) b e = ground (arith, occurrences-remove_at a bs i b e)

All-lt-remove_at : (n i : ℕ) (bs : List ℕ) → All (λ c. c < n) bs → All (λ c. c < n) (remove_at i bs)
All-lt-remove_at n i [] all = tt
All-lt-remove_at n zero (b ∷ bs) all = all.1
All-lt-remove_at n (suc i) (b ∷ bs) all = (all.0, All-lt-remove_at n i bs all.1)

module _ {Ip : Type 0} ⦃k : Key Ip⦄ where
  ceiling_of-le : (p : QueryPermits Ip) → IsConfigured p → ceiling_of p ≤ p.global_limit
  ceiling_of-le p c = elim (Option-cases p.fixed_per_client) [
    | inl e ↦ rw e (omega arith)
    | inr (fixed, e) ↦ rw e (c.ceiling fixed e).1
  ]

  -- A bound that admits is within the ceiling, whatever it was computed from.
  limit-le-ceiling_of :
      (active free_then : ℕ) (p : QueryPermits Ip)
      → IsConfigured p
      → admission_limit active (record p { free = free_then }) ≤ ceiling_of p
  unfolding admission_limit limit_for
  limit-le-ceiling_of active free_then p c = elim (Option-cases p.fixed_per_client) [
    | inl e ↦ rw e (ground arith)
    | inr (fixed, e) ↦ rw e (omega arith)
  ]

  pub new-Inv :
      (global : ℕ) (per_client : Option ℕ) (now : ℕ)
      → max global 1 < 2 ^ 64
      → Inv (record { p = new {Ip = Ip} global per_client now; slots = []; permits = 0 })
  unfolding new lookup
  new-Inv global per_client now small = record {
    listed = record {
      once = tt;
      handed_out = λ client load e. cc;
      own = λ a b load other e f same. cc;
    };
    configured = new-IsConfigured global per_client now;
    word = small;
    budget = omega arith;
    allocated = tt;
    counted = λ c. refl;
    bounded = λ c. omega arith;
  }

  -- What a step of one task on the shared state leaves of the limits.
  abbrev SameLimits : QueryPermits Ip → QueryPermits Ip → Type 0
  SameLimits q p = (q.global_limit ≡ p.global_limit) × (q.fixed_per_client ≡ p.fixed_per_client)

  same-IsConfigured : (q p : QueryPermits Ip) → SameLimits q p → IsConfigured p → IsConfigured q
  same-IsConfigured q p (g, f) c = record {
    positive = rw g c.positive;
    ceiling = λ fixed e. rw g (c.ceiling fixed (rw f at e));
  }

  same-ceiling_of : (q p : QueryPermits Ip) → SameLimits q p → ceiling_of q ≡ ceiling_of p
  same-ceiling_of q p (g, f) = ground arith

  prune-same :
      (now : ℕ) (p : QueryPermits Ip)
      → SameLimits (prune now p) p
        × ((prune now p).cells ≡ p.cells)
        × ((prune now p).fresh ≡ p.fresh)
        × ((prune now p).free ≡ p.free)
  unfolding prune
  prune-same now p = ground arith

  enlist-same :
      (o : Option ClientLoad) (client : Ip) (now : ℕ) (p : QueryPermits Ip)
      → let q = (enlist o client now p).0 in
        SameLimits q p
        × ((a : ℕ) → (q.cells a ≡ p.cells a) ⊎ ((a ≡ p.fresh) × (q.cells a ≡ 0)))
        × (p.fresh ≤ q.fresh)
        × (q.free ≡ p.free)
  unfolding enlist
  enlist-same none client now p = ((refl, refl), λ a. ground arith, omega arith, refl)
  enlist-same (some load) client now p = ((refl, refl), λ a. inl refl, omega arith, refl)

  share-same :
      (client : Ip) (now : ℕ) (p : QueryPermits Ip)
      → let q = (client_share client now p).0 in
        SameLimits q p
        × ((a : ℕ) → (q.cells a ≡ p.cells a) ⊎ ((a ≡ p.fresh) × (q.cells a ≡ 0)))
        × (p.fresh ≤ q.fresh)
        × (q.free ≡ p.free)
  unfolding client_share
  share-same client now p =
      let (same, cells, fresh, free) = prune-same now p in
      let (same', cells', fresh', free') =
        enlist-same (lookup client (prune now p).loads) client now (prune now p) in
      (
        (same'.0 ∙ same.0, same'.1 ∙ same.1),
        λ a. ground (arith, cells' a, ap (λ f. f a) cells),
        omega arith,
        free' ∙ free,
      )

  Inv-shares :
      (w : World Ip) (client : Ip) (now : ℕ)
      → Inv w
      → Inv (record w { p = (client_share client now w.p).0 })
  Inv-shares w client now v =
      let q = (client_share client now w.p).0 in
      let (same, cells, fresh, free) = share-same client now w.p in
      record {
        listed = share-IsListed client now w.p v.listed;
        configured = same-IsConfigured q w.p same v.configured;
        word = omega (arith, same.0, v.word);
        budget = omega (arith, same.0, free, v.budget);
        allocated = All-map (λ c lt. omega (arith, fresh, lt)) w.slots v.allocated;
        counted = λ c. elim (cells c) [
          | inl old ↦ old ∙ v.counted c
          | inr (at, empty) ↦
              empty ∙ sym (occurrences_fresh c w.p.fresh w.slots (omega arith) v.allocated)
        ];
        bounded = λ c. ground (arith, cells c, v.bounded c, same-ceiling_of q w.p same);
      }

  Inv-claims :
      (w : World Ip) (counter active free_then : ℕ) (q : QueryPermits Ip)
      → counter < w.p.fresh
      → claim counter (admission_limit active (record w.p { free = free_then })) w.p ≡ some q
      → Inv w
      → Inv (record w { p = q; slots = counter ∷ w.slots })
  unfolding claim
  Inv-claims w counter active free_then q old e v = record {
    listed = same-IsListed q w.p (ground arith) (ground arith) v.listed;
    configured = same-IsConfigured q w.p (ground arith, ground arith) v.configured;
    word = ground (arith, v.word);
    budget = ground (arith, v.budget);
    allocated = (ground arith, All-map (λ c lt. ground (arith, lt)) w.slots v.allocated);
    counted = λ c. ground (arith, v.counted c, v.counted counter);
    bounded = λ c. ground (
      arith,
      v.bounded c,
      limit-le-ceiling_of active free_then w.p v.configured,
      same-ceiling_of q w.p (ground arith, ground arith),
    );
  }

  Inv-takes :
      (w : World Ip) (q : QueryPermits Ip)
      → take_global w.p ≡ some q
      → Inv w
      → Inv (record w { p = q; permits = suc w.permits })
  unfolding take_global
  Inv-takes w q e v = record {
    listed = same-IsListed q w.p (ground arith) (ground arith) v.listed;
    configured = same-IsConfigured q w.p (ground arith, ground arith) v.configured;
    word = ground (arith, v.word);
    budget = ground (arith, v.budget);
    allocated = All-map (λ c lt. ground (arith, lt)) w.slots v.allocated;
    counted = λ c. ground (arith, v.counted c);
    bounded = λ c. ground (arith, v.bounded c, same-ceiling_of q w.p (ground arith, ground arith));
  }

  -- The counter of a slot that is held is at least 1, so that its `fetch_sub` does not wrap.
  dropped :
      (w : World Ip) (i counter : ℕ)
      → get_elem? w.slots i ≡ some counter
      → Inv w
      → (w.p.cells counter + 2 ^ 64 - 1) % 2 ^ 64 + 1 ≡ w.p.cells counter
  dropped w i counter e v = ground (
    arith,
    occurrences-remove_at counter w.slots i counter e,
    v.counted counter,
    v.bounded counter,
    ceiling_of-le w.p v.configured,
    v.word,
  )

  Inv-drops_slot :
      (w : World Ip) (i counter : ℕ)
      → get_elem? w.slots i ≡ some counter
      → Inv w
      → Inv (record w { p = drop_slot counter w.p; slots = remove_at i w.slots })
  unfolding drop_slot
  Inv-drops_slot w i counter e v =
      let held_in_word = dropped w i counter e v in
      record {
        listed = same-IsListed (drop_slot counter w.p) w.p refl refl v.listed;
        configured = same-IsConfigured _ w.p (refl, refl) v.configured;
        word = v.word;
        budget = v.budget;
        allocated = All-lt-remove_at w.p.fresh i w.slots v.allocated;
        counted = λ c. ground (
          arith,
          held_in_word,
          v.counted c,
          v.counted counter,
          occurrences-remove_at c w.slots i counter e,
        );
        bounded = λ c. ground (arith, held_in_word, v.bounded c, v.bounded counter);
      }

  Inv-drops_global :
      (w : World Ip) (n : ℕ)
      → w.permits ≡ suc n
      → Inv w
      → Inv (record w { p = drop_global w.p; permits = n })
  unfolding drop_global
  Inv-drops_global w n e v = record {
    listed = same-IsListed (drop_global w.p) w.p refl refl v.listed;
    configured = same-IsConfigured _ w.p (refl, refl) v.configured;
    word = v.word;
    budget = omega (arith, v.budget);
    allocated = v.allocated;
    counted = v.counted;
    bounded = v.bounded;
  }

module _ {Ip : Type 0} ⦃k : Key Ip⦄ where
  Step-Inv : {w v : World Ip} → Step w v → Inv w → Inv v
  Step-Inv (shares w client now) v = Inv-shares w client now v
  Step-Inv (claims w counter active free_then q old e) v =
      Inv-claims w counter active free_then q old e v
  Step-Inv (takes w q e) v = Inv-takes w q e v
  Step-Inv (drops_slot w i counter e) v = Inv-drops_slot w i counter e v
  Step-Inv (drops_global w n e) v = Inv-drops_global w n e v

  Steps-Inv : {w v : World Ip} → Steps w v → Inv w → Inv v
  Steps-Inv here i = i
  Steps-Inv (next r s) i = Step-Inv s (Steps-Inv r i)

  -- From the start, in any order of any tasks' steps: the permits that are free and those that are
  -- held make up the budget; each counter is the number of slots held of it, at most the fixed ceiling,
  -- or the budget where none is set; and no two clients in the table have the same counter. The bound
  -- is of a counter: a client that the table forgot between two of its queries may have two.
  pub reachable-Inv :
      (global : ℕ) (per_client : Option ℕ) (now : ℕ) (w : World Ip)
      → max global 1 < 2 ^ 64
      → Steps (record { p = new global per_client now; slots = []; permits = 0 }) w
      → Inv w
  reachable-Inv global per_client now w small r = Steps-Inv r (new-Inv global per_client now small)
