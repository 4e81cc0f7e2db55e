-- ===== src/Dns/Cache/Serving.antt =====
-- What the cache of src/dns_cache.rs serves, over any sequence of its calls.
use egressy.Base.{
  ℕ, ◌-◌, ◌<◌, ◌≤◌, ◌≡◌, refl, inl, inr, Option, none, some, List, [], ◌∷◌, leb, length, arith, Key,
  lookup, remove, lookup-remove, length-remove-le, Option-cases, Bool-cases,
}
use egressy.Dns.Cache.{
  Message, Entry, CacheKey, cache_key_key, DnsCache, new, keep_entry, Codec, cacheable_ttl,
  serve_entry, serve_key, answer_from, storable, store, key_for,
}
use egressy.Dns.Cache.Bounded.{length-keep_entry, lookup-keep_entry}

-- Within its capacity; each entry is of a response that may be kept, for as long as it may.
pub record IsSound {Addr Name Data : Type 0} ⦃a : Key Addr⦄ (c : DnsCache Addr Name Data)
    : Type 0 where
  pub positive : 0 < c.capacity
  pub bounded : length c.entries ≤ c.capacity
  pub kept :
      (k : CacheKey Addr) (e : Entry Name Data)
      → lookup k c.entries ≡ some e
      → cacheable_ttl e.response ≡ some e.ttl

module _ {Addr Name Data : Type 0} ⦃a : Key Addr⦄ where
  capacity-keep_entry :
      (k : CacheKey Addr) (m : Message Name Data) (ttl now : ℕ) (c : DnsCache Addr Name Data)
      → (keep_entry k m ttl now c).capacity ≡ c.capacity
  unfolding keep_entry
  capacity-keep_entry k m ttl now c = refl

  keep_entry-IsSound :
      (k : CacheKey Addr) (m : Message Name Data) (ttl now : ℕ) (c : DnsCache Addr Name Data)
      → cacheable_ttl m ≡ some ttl
      → IsSound c
      → IsSound (keep_entry k m ttl now c)
  keep_entry-IsSound k m ttl now c may s = record {
    positive = omega (arith, capacity-keep_entry k m ttl now c, s.positive);
    bounded = omega (
      arith,
      capacity-keep_entry k m ttl now c,
      length-keep_entry k m ttl now c s.positive s.bounded,
    );
    kept = λ j e f. ground (arith, lookup-keep_entry k j m ttl now c, s.kept j e);
  }

  remove-IsSound :
      (k : CacheKey Addr) (c : DnsCache Addr Name Data)
      → IsSound c
      → IsSound (record c { entries = remove k c.entries })
  remove-IsSound k c s = record {
    positive = s.positive;
    bounded = omega (arith, length-remove-le k c.entries, s.bounded);
    kept = λ j e f. ground (arith, lookup-remove k j c.entries, s.kept j e);
  }

module _ {Addr Name Data Bytes : Type 0} ⦃a : Key Addr⦄ (codec : Codec Name Data Bytes) where
  storable_kept :
      (q r : Bytes) (upstream : Addr) (k : CacheKey Addr) (m : Message Name Data) (ttl : ℕ)
      → storable codec q r upstream ≡ some (k, m, ttl)
      → cacheable_ttl m ≡ some ttl
  unfolding storable
  storable_kept q r upstream k m ttl e = ground arith

  store-IsSound :
      (q r : Bytes) (upstream : Addr) (now : ℕ) (c : DnsCache Addr Name Data)
      → IsSound c
      → IsSound (store codec q r upstream now c)
  unfolding store
  store-IsSound q r upstream now c s = elim (Option-cases (storable codec q r upstream)) [
    | inl e ↦ rw (e, store) s
    | inr ((k, m, ttl), e) ↦
        rw (e, store) (keep_entry-IsSound k m ttl now c (storable_kept q r upstream k m ttl e) s)
  ]

  serve_entry-IsSound :
      (k : CacheKey Addr) (request : Message Name Data) (now : ℕ) (c : DnsCache Addr Name Data)
      (o : Option (Entry Name Data))
      → IsSound c
      → IsSound (serve_entry codec k request now c o).0
  unfolding serve_entry
  serve_entry-IsSound k request now c none s = s
  serve_entry-IsSound k request now c (some e) s =
      elim (Bool-cases (leb e.ttl (now - e.stored_at))) [
        | inl over ↦ rw over (remove-IsSound k c s)
        | inr live ↦ rw live s
      ]

  serve_key-IsSound :
      (o : Option (CacheKey Addr)) (request : Message Name Data) (now : ℕ)
      (c : DnsCache Addr Name Data)
      → IsSound c
      → IsSound (serve_key codec o request now c).0
  unfolding serve_key
  serve_key-IsSound none request now c s = s
  serve_key-IsSound (some k) request now c s =
      serve_entry-IsSound k request now c (lookup k c.entries) s

  answer_from-IsSound :
      (q : Bytes) (upstream : Addr) (now : ℕ) (c : DnsCache Addr Name Data)
      → IsSound c
      → IsSound (answer_from codec q upstream now c).0
  unfolding answer_from
  answer_from-IsSound q upstream now c s = elim (Option-cases (codec.from_vec q)) [
    | inl e ↦ rw (e, answer_from) s
    | inr (request, e) ↦
        rw (e, answer_from) (serve_key-IsSound (key_for codec request upstream) request now c s)
  ]

-- A call of `store`, or of `lookup`.
pub data Call (Addr Bytes : Type 0) : Type 0 where
  stores : Bytes → Bytes → Addr → Call Addr Bytes
  asks : Bytes → Addr → Call Addr Bytes

module _ {Addr Name Data Bytes : Type 0} ⦃a : Key Addr⦄ (codec : Codec Name Data Bytes) where
  pub calls : List (ℕ × Call Addr Bytes) → DnsCache Addr Name Data → DnsCache Addr Name Data
  calls [] c = c
  calls ((now, stores q r upstream) ∷ cs) c = calls cs (store codec q r upstream now c)
  calls ((now, asks q upstream) ∷ cs) c = calls cs (answer_from codec q upstream now c).0

  calls-IsSound :
      (cs : List (ℕ × Call Addr Bytes)) (c : DnsCache Addr Name Data)
      → IsSound c
      → IsSound (calls cs c)
  unfolding calls
  calls-IsSound [] c s = s
  calls-IsSound ((now, stores q r upstream) ∷ cs) c s =
      calls-IsSound cs _ (store-IsSound codec q r upstream now c s)
  calls-IsSound ((now, asks q upstream) ∷ cs) c s =
      calls-IsSound cs _ (answer_from-IsSound codec q upstream now c s)

  -- After any calls on a new cache it holds no more entries than its capacity, at least 1, and only
  -- those of responses that may be kept, each for as long as `cacheable_ttl` allows.
  pub new-calls-IsSound :
      (cs : List (ℕ × Call Addr Bytes)) (capacity : ℕ) → IsSound (calls cs (new capacity))
  unfolding new lookup
  new-calls-IsSound cs capacity =
      calls-IsSound cs (new capacity)
        (record { positive = omega arith; bounded = omega arith; kept = λ k e f. cc })
