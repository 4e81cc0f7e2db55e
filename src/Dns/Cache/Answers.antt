-- ===== src/Dns/Cache/Answers.antt =====
-- Which answers the cache of src/dns_cache.rs gives, and for how long.
use egressy.Base.{
  ℕ, ◌+◌, ◌-◌, ◌*◌, ◌/◌, ◌%◌, ◌^◌, ◌<◌, ◌≤◌, ◌≡◌, refl, sym, ap, ◌∙◌, ◌≢◌, ◌⊎◌, inl, inr, Option,
  none, some, List, [], ◌∷◌, arith, Key, lookup, lookup-remove, Option-cases, Bool-cases, leb,
  beq_refl, All,
}
use egressy.Dns.Cache.{
  Message, Entry, Record, CacheKey, cache_key_key, cache_key_eq, cache_key_eq_iff, DnsCache, Codec,
  second, max_ttl, served, with_ttl, serve_entry, serve_key, answer_from, storable, store, key_for,
}
use egressy.Dns.Cache.Ttl.{cacheable_ttl_sound}
use egressy.Dns.Cache.Bounded.{lookup-keep_entry}
use egressy.Dns.Cache.Serving.{IsSound}

-- No record promises more than is left of the entry's time.
abbrev pub Within : {Data : Type 0} → ℕ → ℕ → List (Record Data) → Type 0
Within ttl elapsed = All (λ r. r.ttl * second + elapsed ≤ ttl)

with_ttl-Within :
    {Data : Type 0} (ttl elapsed : ℕ) (rs : List (Record Data))
    → elapsed < ttl
    → Within ttl elapsed (with_ttl ((ttl - elapsed) / second % 2 ^ 32) rs)
with_ttl-Within ttl elapsed [] live = tt
with_ttl-Within ttl elapsed (r ∷ rs) live = (omega arith, with_ttl-Within ttl elapsed rs live)

module _ {Addr Name Data Bytes : Type 0} ⦃a : Key Addr⦄ (codec : Codec Name Data Bytes) where
  -- The entry that an answer is of.
  pub record Hit (q : Bytes) (upstream : Addr) (now : ℕ) (c : DnsCache Addr Name Data)
      (bytes : Bytes) : Type 0 where
    pub request : Message Name Data
    pub key : CacheKey Addr
    pub entry : Entry Name Data
    pub asked : codec.from_vec q ≡ some request
    pub keyed : key_for codec request upstream ≡ some key
    pub found : lookup key c.entries ≡ some entry
    pub live : now - entry.stored_at < entry.ttl
    pub sent : codec.to_vec (served entry request (now - entry.stored_at)) ≡ some bytes

  serve_entry_hit :
      (k : CacheKey Addr) (request : Message Name Data) (now : ℕ) (c : DnsCache Addr Name Data)
      (o : Option (Entry Name Data)) (bytes : Bytes)
      → (serve_entry codec k request now c o).1 ≡ some bytes
      → (e : Entry Name Data) × (o ≡ some e)
        × (now - e.stored_at < e.ttl)
        × (codec.to_vec (served e request (now - e.stored_at)) ≡ some bytes)
  unfolding serve_entry
  serve_entry_hit k request now c none bytes h = cc
  serve_entry_hit k request now c (some e) bytes h = (e, refl, ground arith, ground arith)

  -- An answer is that of a live entry under the key of the question and the resolver.
  answer_from-Hit :
      (q : Bytes) (upstream : Addr) (now : ℕ) (c : DnsCache Addr Name Data) (bytes : Bytes)
      → (answer_from codec q upstream now c).1 ≡ some bytes
      → Hit q upstream now c bytes
  unfolding answer_from
  answer_from-Hit q upstream now c bytes h = elim (Option-cases (codec.from_vec q)) [
    | inl e ↦ absurd (ground arith)
    | inr (request, e) ↦ elim (Option-cases (key_for codec request upstream)) [
      | inl f ↦ absurd (ground arith)
      | inr (k, f) ↦
          let (entry, found, live, sent) =
            serve_entry_hit k request now c (lookup k c.entries) bytes (ground arith) in
          record {
            request = request;
            key = k;
            entry = entry;
            asked = e;
            keyed = f;
            found = found;
            live = live;
            sent = sent;
          }
    ]
  ]

  -- An answer of a sound cache is younger than its time to live, which is at most 300 seconds; it
  -- has the number and the questions of the request, and none of its answers or authorities
  -- promises more time than the entry has left. Its additional section is the stored one, with the
  -- times that it came with.
  pub answers_fresh :
      (q : Bytes) (upstream : Addr) (now : ℕ) (c : DnsCache Addr Name Data) (bytes : Bytes)
      → IsSound c
      → (answer_from codec q upstream now c).1 ≡ some bytes
      → (h : Hit q upstream now c bytes) × (h.entry.ttl ≤ max_ttl)
        × (let m = served h.entry h.request (now - h.entry.stored_at) in
            (m.id ≡ h.request.id)
            × (m.queries ≡ h.request.queries)
            × (m.response_code ≡ h.entry.response.response_code)
            × Within h.entry.ttl (now - h.entry.stored_at) m.answers
            × Within h.entry.ttl (now - h.entry.stored_at) m.authorities
            × (m.additionals ≡ h.entry.response.additionals))
  unfolding served
  answers_fresh q upstream now c bytes s got =
      let h = answer_from-Hit q upstream now c bytes got in
      let elapsed : ℕ = now - h.entry.stored_at in
      (
        h,
        (cacheable_ttl_sound h.entry.response h.entry.ttl (s.kept h.key h.entry h.found)).1,
        (
          refl,
          refl,
          refl,
          with_ttl-Within h.entry.ttl elapsed h.entry.response.answers h.live,
          with_ttl-Within h.entry.ttl elapsed h.entry.response.authorities h.live,
          refl,
        ),
      )

  answer_from_key :
      (q : Bytes) (upstream : Addr) (now : ℕ) (c : DnsCache Addr Name Data)
      (request : Message Name Data) (k : CacheKey Addr)
      → codec.from_vec q ≡ some request
      → key_for codec request upstream ≡ some k
      → answer_from codec q upstream now c ≡ serve_entry codec k request now c (lookup k c.entries)
  unfolding answer_from
  answer_from_key q upstream now c request k e f = ground arith

  serve_entry_keeps :
      (j : CacheKey Addr) (request : Message Name Data) (now : ℕ) (c : DnsCache Addr Name Data)
      (k : CacheKey Addr) (e : Entry Name Data) (o : Option (Entry Name Data))
      → lookup j c.entries ≡ o
      → lookup k c.entries ≡ some e
      → now - e.stored_at < e.ttl
      → lookup k (serve_entry codec j request now c o).0.entries ≡ some e
  unfolding serve_entry
  serve_entry_keeps j request now c k e none there found live = found
  serve_entry_keeps j request now c k e (some f) there found live =
      elim (Bool-cases (leb f.ttl (now - f.stored_at))) [
        | inr fits ↦ rw fits found
        | inl over ↦ rw over (elim (Bool-cases (cache_key_eq j k)) [
          | inr other ↦ rw (lookup-remove j k c.entries, other) found
          | inl same ↦
              let at_k : some f ≡ some e =
                sym there ∙ ap (λ i. lookup i c.entries) ((cache_key_eq_iff j k).0 same) ∙ found in
              absurd (ground (arith, at_k, over, live))
        ])
      ]

  -- An entry is still there after a lookup within its time.
  answer_from_keeps :
      (q : Bytes) (upstream : Addr) (now : ℕ) (c : DnsCache Addr Name Data) (k : CacheKey Addr)
      (e : Entry Name Data)
      → lookup k c.entries ≡ some e
      → now - e.stored_at < e.ttl
      → lookup k (answer_from codec q upstream now c).0.entries ≡ some e
  unfolding answer_from serve_key
  answer_from_keeps q upstream now c k e found live = elim (Option-cases (codec.from_vec q)) [
    | inl none_is ↦ rw (none_is, answer_from) found
    | inr (request, r) ↦ elim (Option-cases (key_for codec request upstream)) [
      | inl unkeyed ↦ rw (r, answer_from) (rw (unkeyed, serve_key) found)
      | inr (j, keyed) ↦
          rw (r, answer_from)
            (rw (keyed, serve_key)
              (serve_entry_keeps j request now c k e (lookup j c.entries) refl found live))
    ]
  ]

  -- Lookups, one after the other.
  abbrev pub ask_all : List (Bytes × Addr × ℕ) → DnsCache Addr Name Data → DnsCache Addr Name Data
  ask_all [] c = c
  ask_all ((q, upstream, now) ∷ more) c = ask_all more (answer_from codec q upstream now c).0

  ask_all_keeps :
      (asked : List (Bytes × Addr × ℕ)) (later : ℕ) (c : DnsCache Addr Name Data)
      (k : CacheKey Addr) (e : Entry Name Data)
      → All (λ ask. ask.2 ≤ later) asked
      → lookup k c.entries ≡ some e
      → later - e.stored_at < e.ttl
      → lookup k (ask_all asked c).entries ≡ some e
  ask_all_keeps [] later c k e before found live = found
  ask_all_keeps ((q, upstream, now) ∷ more) later c k e before found live =
      ask_all_keeps more later (answer_from codec q upstream now c).0 k e before.1
        (answer_from_keeps q upstream now c k e found (omega (arith, before.0, live))) live

  -- What was stored is served to a question with the same key, under the number of the new request,
  -- until its time to live is over, whatever is looked up in between, if nothing is stored in between.
  pub store_then_answer :
      (q r q' : Bytes) (upstream upstream' : Addr) (now later : ℕ) (c : DnsCache Addr Name Data)
      (k : CacheKey Addr) (m request : Message Name Data) (ttl : ℕ)
      (between : List (Bytes × Addr × ℕ))
      → storable codec q r upstream ≡ some (k, m, ttl)
      → codec.from_vec q' ≡ some request
      → key_for codec request upstream' ≡ some k
      → later - now < ttl
      → All (λ ask. ask.2 ≤ later) between
      → (answer_from codec q' upstream' later (ask_all between (store codec q r upstream now c))).1
        ≡ codec.to_vec
            (served (record { response = m; stored_at = now; ttl = ttl }) request (later - now))
  unfolding store serve_entry
  store_then_answer q r q' upstream upstream' now later c k m request ttl between e asked keyed live
        before =
      let there : lookup k (store codec q r upstream now c).entries
          ≡ some (record { response = m; stored_at = now; ttl = ttl }) =
        ground (arith, e, lookup-keep_entry k k m ttl now c, beq_refl k) in
      let kept =
        ask_all_keeps between later (store codec q r upstream now c) k
          (record { response = m; stored_at = now; ttl = ttl }) before there live in
      rw
        (
          answer_from_key q' upstream' later (ask_all between (store codec q r upstream now c))
              request k asked keyed,
          kept,
        )
        (ground (arith, live))

  -- An entry whose time is over is a miss, and is dropped.
  pub expired_dropped :
      (q : Bytes) (upstream : Addr) (now : ℕ) (c : DnsCache Addr Name Data) (k : CacheKey Addr)
      (request : Message Name Data) (e : Entry Name Data)
      → codec.from_vec q ≡ some request
      → key_for codec request upstream ≡ some k
      → lookup k c.entries ≡ some e
      → e.ttl ≤ now - e.stored_at
      → let (c', answer) = answer_from codec q upstream now c in
        (answer ≡ none) × (lookup k c'.entries ≡ none)
  unfolding serve_entry
  expired_dropped q upstream now c k request e asked keyed found over =
      rw (answer_from_key q upstream now c request k asked keyed, found)
        (ground arith, ground (arith, lookup-remove k k c.entries, beq_refl k))

  key_for_upstream :
      (request : Message Name Data) (upstream : Addr) (k : CacheKey Addr)
      → key_for codec request upstream ≡ some k
      → k.upstream ≡ upstream
  unfolding key_for
  key_for_upstream request upstream k e = ground arith

  storable_upstream :
      (q r : Bytes) (upstream : Addr) (k : CacheKey Addr) (m : Message Name Data) (ttl : ℕ)
      → storable codec q r upstream ≡ some (k, m, ttl)
      → k.upstream ≡ upstream
  unfolding storable key_for
  storable_upstream q r upstream k m ttl e = ground arith

  serve_entry_same :
      (k : CacheKey Addr) (request : Message Name Data) (now : ℕ) (c d : DnsCache Addr Name Data)
      (o : Option (Entry Name Data))
      → (serve_entry codec k request now d o).1 ≡ (serve_entry codec k request now c o).1
  unfolding serve_entry
  serve_entry_same k request now c d none = refl
  serve_entry_same k request now c d (some e) = ground arith

  serve_entry-none :
      (k : CacheKey Addr) (request : Message Name Data) (now : ℕ) (c : DnsCache Addr Name Data)
      → (serve_entry codec k request now c none).1 ≡ none
  unfolding serve_entry
  serve_entry-none k request now c = refl

  store-lookup_other :
      (q r : Bytes) (upstream : Addr) (now : ℕ) (c : DnsCache Addr Name Data) (j : CacheKey Addr)
      → upstream ≢ j.upstream
      → (lookup j (store codec q r upstream now c).entries ≡ lookup j c.entries)
        ⊎ (lookup j (store codec q r upstream now c).entries ≡ none)
  unfolding store
  store-lookup_other q r upstream now c j apart =
      elim (Option-cases (storable codec q r upstream)) [
        | inl e ↦ inl (rw (e, store) refl)
        | inr ((k, m, ttl), e) ↦
            rw (e, store)
              (ground (
                arith,
                storable_upstream q r upstream k m ttl e,
                lookup-keep_entry k j m ttl now c,
              ))
      ]

  unkeyed_none :
      (q : Bytes) (upstream : Addr) (now : ℕ)
      → ((request : Message Name Data) × (k : CacheKey Addr) × (codec.from_vec q ≡ some request)
          × (key_for codec request upstream ≡ some k))
        ⊎ ((d : DnsCache Addr Name Data) → (answer_from codec q upstream now d).1 ≡ none)
  unfolding answer_from
  unkeyed_none q upstream now = elim (Option-cases (codec.from_vec q)) [
    | inl e ↦ inr (λ d. ground arith)
    | inr (request, e) ↦ elim (Option-cases (key_for codec request upstream)) [
      | inl f ↦ inr (λ d. ground arith)
      | inr (k, f) ↦ inl (request, k, e, f)
    ]
  ]

  -- What one resolver answered is never served for another: a store under one leaves the other's
  -- answers as they were, or takes one away.
  pub upstreams_apart :
      (q r q' : Bytes) (upstream other : Addr) (now later : ℕ) (c : DnsCache Addr Name Data)
      → upstream ≢ other
      → ((answer_from codec q' other later (store codec q r upstream now c)).1
          ≡ (answer_from codec q' other later c).1)
        ⊎ ((answer_from codec q' other later (store codec q r upstream now c)).1 ≡ none)
  upstreams_apart q r q' upstream other now later c apart = elim (unkeyed_none q' other later) [
    | inr miss ↦ inr (miss (store codec q r upstream now c))
    | inl (request, k, asked, keyed) ↦ by_key request k asked keyed (
        store-lookup_other q r upstream now c k
          (λ same. apart (same ∙ key_for_upstream request other k keyed)))
  ]
    where
      by_key :
          (request : Message Name Data) (k : CacheKey Addr)
          → codec.from_vec q' ≡ some request
          → key_for codec request other ≡ some k
          → (lookup k (store codec q r upstream now c).entries ≡ lookup k c.entries)
            ⊎ (lookup k (store codec q r upstream now c).entries ≡ none)
          → ((answer_from codec q' other later (store codec q r upstream now c)).1
              ≡ (answer_from codec q' other later c).1)
            ⊎ ((answer_from codec q' other later (store codec q r upstream now c)).1 ≡ none)
      by_key request k asked keyed (inl same) = inl (
          rw
            (
              answer_from_key q' other later (store codec q r upstream now c) request k asked keyed,
              answer_from_key q' other later c request k asked keyed,
              same,
            )
            (serve_entry_same k request later c (store codec q r upstream now c)
              (lookup k c.entries)))
      by_key request k asked keyed (inr gone) = inr (
          rw
            (
              answer_from_key q' other later (store codec q r upstream now c) request k asked keyed,
              gone,
            )
            (serve_entry-none k request later (store codec q r upstream now c)))
