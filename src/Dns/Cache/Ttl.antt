-- ===== src/Dns/Cache/Ttl.antt =====
-- How long a response may be served: `cacheable_ttl` of src/dns_cache.rs.
use egressy.Base.{
  ℕ, ◌*◌, ◌≤◌, min, ◌≡◌, refl, ◌≢◌, ◌⊎◌, inl, inr, true, false, none, some, List, [], ◌∷◌, arith,
  map, All, All-map, Option-cases,
}
use egressy.Dns.Cache.{
  Message, Record, ResponseCode, no_error, nx_domain, other_code, least, soa_ttls, second, max_ttl,
  min_ttl, negative_ttl_seconds, seconds_for, is_response, cacheable_ttl,
}

least_le : (ns : List ℕ) (n : ℕ) → least ns ≡ some n → All (λ k. n ≤ k) ns
least_le [] n e = tt
least_le (m ∷ ns) n e = elim (Option-cases (least ns)) [
  | inl f ↦ (ground arith, All-map (λ k le. le) ns (none_all ns f))
  | inr (r, f) ↦ (ground arith, All-map (λ k le. ground (arith, le)) ns (least_le ns r f))
]
  where
    none_all : (ms : List ℕ) → least ms ≡ none → All (λ k. n ≤ k) ms
    none_all [] f = tt
    none_all (k ∷ ms) f = absurd (ground arith)

module _ {Data : Type 0} where
  -- No record of the list is served for longer than its TTL.
  abbrev pub Covers : ℕ → List (Record Data) → Type 0
  Covers ttl = All (λ r. ttl ≤ r.ttl * second)

  -- Nor an SOA for longer than its minimum.
  abbrev pub CoversSoa : ℕ → List (Record Data) → Type 0
  CoversSoa ttl = All (λ r.
      (minimum : ℕ)
      → r.soa_minimum ≡ some minimum
      → (ttl ≤ r.ttl * second) × (ttl ≤ minimum * second))

  Covers-map :
      (ttl n : ℕ) (rs : List (Record Data))
      → ttl ≤ n * second
      → All (λ k. n ≤ k) (map (λ r. r.ttl) rs)
      → Covers ttl rs
  Covers-map ttl n [] le all = tt
  Covers-map ttl n (r ∷ rs) le all = (omega (arith, le, all.0), Covers-map ttl n rs le all.1)

  CoversSoa-soa_ttls :
      (ttl n : ℕ) (rs : List (Record Data))
      → ttl ≤ n * second
      → All (λ k. n ≤ k) (soa_ttls rs)
      → CoversSoa ttl rs
  CoversSoa-soa_ttls ttl n [] le all = tt
  CoversSoa-soa_ttls ttl n (r ∷ rs) le all = elim (Option-cases r.soa_minimum) [
    | inl e ↦ (λ minimum f. cc, CoversSoa-soa_ttls ttl n rs le (rw e at all))
    | inr (m, e) ↦
        let here_and_rest : (n ≤ min r.ttl m) × All (λ k. n ≤ k) (soa_ttls rs) = rw e at all in
        (
          λ minimum f.
              let same : m ≡ minimum = ground arith in
              (omega (arith, le, here_and_rest.0), omega (arith, le, same, here_and_rest.0)),
          CoversSoa-soa_ttls ttl n rs le here_and_rest.1,
        )
  ]

-- What an answer, or a denial, allows: the answers' TTLs, or the SOAs of a denial that has some.
abbrev pub Allows : {Name Data : Type 0} → ResponseCode → Message Name Data → ℕ → Type 0
Allows code m ttl =
    ((code ≡ no_error) × (m.answers ≢ []) × Covers ttl m.answers)
    ⊎ ((((code ≡ no_error) × (m.answers ≡ [])) ⊎ (code ≡ nx_domain))
        × (soa_ttls m.authorities ≢ [])
        × CoversSoa ttl m.authorities)

list_cases {ℓ} : {A : Type ℓ} (xs : List A) → (xs ≡ []) ⊎ ((x : A) × (ys : List A) × (xs ≡ x ∷ ys))
list_cases [] = inl refl
list_cases (x ∷ xs) = inr (x, xs, refl)

module _ {Name Data : Type 0} (m : Message Name Data) (n ttl : ℕ) (le : ttl ≤ n * second) where
  denial_covers :
      negative_ttl_seconds m ≡ some n → (soa_ttls m.authorities ≢ []) × CoversSoa ttl m.authorities
  unfolding negative_ttl_seconds
  denial_covers e = (
    λ none_there. cc,
    CoversSoa-soa_ttls ttl n m.authorities le (least_le (soa_ttls m.authorities) n e),
  )

  seconds_allow : (code : ResponseCode) → seconds_for code m ≡ some n → Allows code m ttl
  unfolding seconds_for
  seconds_allow no_error e = elim (list_cases m.answers) [
    | inl none_there ↦ denied (inl (refl, none_there)) (denial_covers (rw none_there at e))
    | inr (r, rs, f) ↦
        inl
          (refl, λ none_there. cc, Covers-map ttl n m.answers le (least_le _ n (rw f (rw f at e))))
  ]
    where
      denied :
          ((no_error ≡ no_error) × (m.answers ≡ [])) ⊎ (no_error ≡ nx_domain)
          → (soa_ttls m.authorities ≢ []) × CoversSoa ttl m.authorities
          → Allows no_error m ttl
      denied why (has, covers) = inr (why, has, covers)
  seconds_allow nx_domain e = let (has, covers) = denial_covers e in inr (inr refl, has, covers)
  seconds_allow (other_code c) e = cc

-- A response that is kept is a complete response, for 1 to 300 seconds: no longer than any of its
-- answers allows, or, as a denial, than the TTL and the minimum of any of its SOAs, of which it has
-- one. Whatever else its code says, it is not kept.
pub cacheable_ttl_sound :
    {Name Data : Type 0} (m : Message Name Data) (ttl : ℕ)
    → cacheable_ttl m ≡ some ttl
    → (min_ttl ≤ ttl)
      × (ttl ≤ max_ttl)
      × (is_response m.message_type ≡ true)
      × (m.truncation ≡ false)
      × Allows m.response_code m ttl
unfolding cacheable_ttl
cacheable_ttl_sound m ttl e = elim (Option-cases (seconds_for m.response_code m)) [
  | inl f ↦ absurd (ground arith)
  | inr (n, f) ↦ (
    ground arith,
    ground arith,
    ground arith,
    ground arith,
    seconds_allow m n ttl (ground arith) m.response_code f,
  )
]
