-- ===== src/Dns/Cache/Bounded.antt =====
-- The cache of src/dns_cache.rs stays within its capacity, and what a store changes.
use egressy.Base.{
  ℕ, ◌<◌, ◌≤◌, ◌≡◌, refl, ap, ◌∙◌, ◌≢◌, ◌⊎◌, inl, inr, true, none, some, [], ◌∷◌, is_some, length,
  arith, Map, Key, lookup, lookup-insert, lookup-remove, length-insert, length-remove-lt,
  Option-cases, Bool-cases, beq_refl,
}
use egressy.Dns.Cache.{
  Message, Entry, CacheKey, cache_key_key, cache_key_eq, DnsCache, first_expired, oldest_from,
  oldest, victim_of, drop_victim, make_space, cache_key_eq_iff, evict_one, keep_entry,
}

module _ {Addr Name Data : Type 0} ⦃a : Key Addr⦄ where
  first_expired_found :
      (now : ℕ) (m : Map (CacheKey Addr) (Entry Name Data)) (k : CacheKey Addr)
      → first_expired now m ≡ some k
      → is_some (lookup k m) ≡ true
  unfolding first_expired lookup
  first_expired_found now [] k e = cc
  first_expired_found now ((j, x) ∷ m) k e = ground (arith, beq_refl k, first_expired_found now m k)

  oldest_from_found :
      (best : CacheKey Addr) (at : ℕ) (m : Map (CacheKey Addr) (Entry Name Data))
      → (oldest_from best at m ≡ best) ⊎ (is_some (lookup (oldest_from best at m) m) ≡ true)
  unfolding oldest_from lookup
  oldest_from_found best at [] = inl refl
  oldest_from_found best at ((j, x) ∷ m) =
      ground (arith, beq_refl j, oldest_from_found j x.stored_at m, oldest_from_found best at m)

  oldest_found :
      (m : Map (CacheKey Addr) (Entry Name Data)) (k : CacheKey Addr)
      → oldest m ≡ some k
      → is_some (lookup k m) ≡ true
  unfolding oldest lookup
  oldest_found [] k e = cc
  oldest_found ((j, x) ∷ m) k e = ground (arith, beq_refl k, oldest_from_found j x.stored_at m)

  -- The victim is in the table.
  victim_of_found :
      (now : ℕ) (m : Map (CacheKey Addr) (Entry Name Data)) (k : CacheKey Addr)
      → victim_of now m ≡ some k
      → is_some (lookup k m) ≡ true
  unfolding victim_of
  victim_of_found now m k e = ground (arith, first_expired_found now m k, oldest_found m k)

  victim_of-some :
      (now : ℕ) (m : Map (CacheKey Addr) (Entry Name Data))
      → 0 < length m
      → (k : CacheKey Addr) × (victim_of now m ≡ some k)
  unfolding victim_of oldest
  victim_of-some now [] pos = absurd (omega arith)
  victim_of-some now ((j, x) ∷ m) pos = elim (Option-cases (first_expired now ((j, x) ∷ m))) [
    | inl e ↦ (oldest_from j x.stored_at m, rw e refl)
    | inr (k, e) ↦ (k, rw e refl)
  ]

  -- An eviction takes an entry out of a table that has one.
  length-evict_one :
      (now : ℕ) (m : Map (CacheKey Addr) (Entry Name Data))
      → 0 < length m
      → length (evict_one now m) < length m
  unfolding evict_one
  length-evict_one now m pos =
      let (k, e) = victim_of-some now m pos in
      rw (e, drop_victim) (length-remove-lt k m (victim_of_found now m k e))

  length-make_space :
      (k : CacheKey Addr) (now : ℕ) (c : DnsCache Addr Name Data)
      → 0 < c.capacity
      → length c.entries ≤ c.capacity
      → (length (make_space k now c) ≤ c.capacity)
        × ((is_some (lookup k (make_space k now c)) ≡ true)
            ⊎ (length (make_space k now c) < c.capacity))
  unfolding make_space
  length-make_space k now c pos fits = ground (arith, length-evict_one now c.entries)

  -- A store keeps the table within its capacity.
  pub length-keep_entry :
      (k : CacheKey Addr) (parsed : Message Name Data) (ttl now : ℕ) (c : DnsCache Addr Name Data)
      → 0 < c.capacity
      → length c.entries ≤ c.capacity
      → length (keep_entry k parsed ttl now c).entries ≤ c.capacity
  unfolding keep_entry
  length-keep_entry k parsed ttl now c pos fits = ground (
    arith,
    length-make_space k now c pos fits,
    length-insert k (record { response = parsed; stored_at = now; ttl = ttl }) (make_space k now c),
  )

  lookup-evict_one :
      (now : ℕ) (k : CacheKey Addr) (m : Map (CacheKey Addr) (Entry Name Data))
      → (lookup k (evict_one now m) ≡ lookup k m)
        ⊎ ((victim_of now m ≡ some k) × (lookup k (evict_one now m) ≡ none))
  unfolding evict_one
  lookup-evict_one now k m = elim (Option-cases (victim_of now m)) [
    | inl e ↦ inl (rw (e, drop_victim) refl)
    | inr (j, e) ↦ elim (Bool-cases (cache_key_eq j k)) [
      | inl same ↦ inr (
        e ∙ ap some ((cache_key_eq_iff j k).0 same),
        rw (e, drop_victim) (rw (lookup-remove j k m, same) refl),
      )
      | inr other ↦ inl (rw (e, drop_victim) (rw (lookup-remove j k m, other) refl))
    ]
  ]

  -- After a store the key has the new entry; any other key has what it had, unless the table was
  -- full, did not have the stored key, and the other was its victim.
  pub lookup-keep_entry :
      (k j : CacheKey Addr) (parsed : Message Name Data) (ttl now : ℕ) (c : DnsCache Addr Name Data)
      → let found = lookup j (keep_entry k parsed ttl now c).entries in
        ((k ≡ j) × (found ≡ some (record { response = parsed; stored_at = now; ttl = ttl })))
        ⊎ ((k ≢ j) × (found ≡ lookup j c.entries))
        ⊎ ((k ≢ j)
            × (found ≡ none)
            × (victim_of now c.entries ≡ some j)
            × (c.capacity ≤ length c.entries)
            × (lookup k c.entries ≡ none))
  unfolding keep_entry make_space
  lookup-keep_entry k j parsed ttl now c = ground (
    arith,
    cache_key_eq_iff k j,
    lookup-evict_one now j c.entries,
    lookup-insert k j (record { response = parsed; stored_at = now; ttl = ttl })
        (make_space k now c),
  )
