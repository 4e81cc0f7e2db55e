-- ===== src/Isolation/Allowances.antt =====
-- What the allowances of the policy that src/isolation.rs builds open.
use mathlib.Core.List.{append-nil, append_assoc}
use egressy.Base.{
  ℕ, suc, ◌≡◌, refl, sym, subst, ◌∙◌, sort_by, sort_by-All, keep-sort_by, ◌≤◌, ◌⊎◌, All-map, ◌-◌,
  inl, inr, String, Bool, true, false, ◌&&◌, Option, none, some, List, [], ◌∷◌, ◌++◌, length, keep,
  All, Map, lookup, lookup-insert, Set, Distinct, insert-Distinct, AllKeys, insert-AllKeys,
  All-entries, ◌==◌, str_eq, eq_iff, arith, Bool-cases, Option-cases, if◌then◌else◌, filter_some,
  nat_key, string_key, pair_key, entries, length-keep_mono,
}
use egressy.Base.Results.{Result-cases}
use egressy.Isolation.{
  IsolationCandidate, IsolationAllowance, IsolationPolicy, IsolationParticipant, AllowSpec,
  valid_identity, parse_allow_list, protocol_key,
}
use egressy.Isolation.Policy.{
  push, indexes_of, identify_one, identify, address_at, unique_addresses_of, AllowKey, Allowing,
  may_reach, allow_spec, allow_specs,
}
use egressy.Isolation.Building.{
  Claimed, claimed_by, nothing_allowed, allow_parsed, allowing_of, allowances_of, participant_of,
  participants_of, participant_before, policy_of, build_policy,
}
use egressy.Isolation.Screening.{screen_kubernetes_candidates}
use egressy.Isolation.Binding.{length-if}
use egressy.Isolation.Complete.{has_identity, has_address, is_identified, build_policy_eligible}

-- An allowance that is resolved, and that the source may have.
abbrev pub Resolved :
    Map String ℕ → Map String (Set String) → IsolationCandidate → AllowKey → Type 0
Resolved unique accepts c (destination, (address, service)) =
    (lookup destination unique ≡ some address) × (may_reach accepts c destination ≡ true)

module _ (unique : Map String ℕ) (accepts : Map String (Set String)) (c : IsolationCandidate) where
  allow_spec-Resolved :
      (spec : AllowSpec) (state : Allowing)
      → AllKeys (Resolved unique accepts c) state.allowed
      → AllKeys (Resolved unique accepts c) (allow_spec unique accepts c spec state).allowed
  unfolding allow_spec
  allow_spec-Resolved spec state h = elim (Option-cases (lookup spec.destination_id unique)) [
    | inl e ↦ rw (e, allow_spec) h
    | inr (address, e) ↦ elim (Bool-cases (may_reach accepts c spec.destination_id)) [
      | inl reach ↦
          rw (e, allow_spec)
            (rw reach (
              insert-AllKeys (Resolved unique accepts c)
                (spec.destination_id, (address, (spec.port, spec.protocol))) tt state.allowed
                (e, reach) h))
      | inr barred ↦ rw (e, allow_spec) (rw barred h)
    ]
  ]

  allow_specs-Resolved :
      (specs : List AllowSpec) (state : Allowing)
      → AllKeys (Resolved unique accepts c) state.allowed
      → AllKeys (Resolved unique accepts c) (allow_specs unique accepts c specs state).allowed
  unfolding allow_specs
  allow_specs-Resolved [] state h = h
  allow_specs-Resolved (spec ∷ specs) state h =
      allow_specs-Resolved specs (allow_spec unique accepts c spec state)
        (allow_spec-Resolved spec state h)

  pub allowing_of-Resolved :
      AllKeys (Resolved unique accepts c) (allowing_of unique accepts c).allowed
  unfolding allowing_of allow_parsed
  allowing_of-Resolved = elim (Option-cases c.allow) [
    | inl e ↦ rw (e, allowing_of) tt
    | inr (raw, e) ↦
        rw (e, allowing_of)
          (elim (Result-cases (parse_allow_list raw)) [
            | inl (specs, p) ↦ rw (p, allow_parsed) (allow_specs-Resolved specs nothing_allowed tt)
            | inr (error, p) ↦ rw (p, allow_parsed) tt
          ])
  ]

abbrev pub is_named : String → Option String → Bool
is_named i none = false
is_named i (some j) = valid_identity j && str_eq j i

-- A candidate with this identity, which is valid.
abbrev pub named : String → IsolationCandidate → Bool
named i c = is_named i c.isolation_id

-- Where the candidates with this identity stand, counted from an index.
positions : ℕ → String → List IsolationCandidate → List ℕ
positions n i [] = []
positions n i (c ∷ cs) = let rest = positions (suc n) i cs in if named i c then n ∷ rest else rest

identify_one-indexes :
    (o : Option String) (name : String) (n : ℕ) (s : Map String (List ℕ) × List String) (i : String)
    → indexes_of i (identify_one o name n s).0
      ≡ indexes_of i s.0 ++ (if is_named i o then n ∷ [] else [])
identify_one-indexes none name n (m, issues) i = simp (append-nil)
identify_one-indexes (some j) name n (m, issues) i = elim (Bool-cases (valid_identity j)) [
  | inl e ↦ rw e (
      ground (
        arith,
        lookup-insert j i (push n (indexes_of j m)) m,
        eq_iff j i,
        append-nil (indexes_of i m),
      ))
  | inr e ↦ rw e (simp (append-nil))
]

identify-indexes :
    (cs : List IsolationCandidate) (n : ℕ) (s : Map String (List ℕ) × List String) (i : String)
    → indexes_of i (identify n cs s).0 ≡ indexes_of i s.0 ++ positions n i cs
unfolding identify positions
identify-indexes [] n s i = simp (append-nil)
identify-indexes (c ∷ cs) n s i =
    rw (identify-indexes cs (suc n) (identify_one c.isolation_id c.name n s) i) (
      rw (identify_one-indexes c.isolation_id c.name n s i)
        (joined (indexes_of i s.0) (positions (suc n) i cs) (named i c)))
  where
    joined :
        (xs ys : List ℕ) (b : Bool)
        → (xs ++ (if b then n ∷ [] else [])) ++ ys ≡ xs ++ (if b then n ∷ ys else ys)
    joined xs ys true = append_assoc xs (n ∷ []) ys
    joined xs ys false = simp (append-nil)

identify-Distinct :
    (cs : List IsolationCandidate) (n : ℕ) (s : Map String (List ℕ) × List String)
    → Distinct s.0
    → Distinct (identify n cs s).0
unfolding identify
identify-Distinct [] n s d = d
identify-Distinct (c ∷ cs) n (m, issues) d =
    identify-Distinct cs (suc n) (identify_one c.isolation_id c.name n (m, issues))
      (one c.isolation_id)
  where
    one : (o : Option String) → Distinct (identify_one o c.name n (m, issues)).0
    one none = d
    one (some j) = elim (Bool-cases (valid_identity j)) [
      | inl e ↦ rw e (insert-Distinct j (push n (indexes_of j m)) m d)
      | inr e ↦ rw e d
    ]

unique_none :
    (cs : List IsolationCandidate) (m : Map String (List ℕ)) (i : String)
    → lookup i m ≡ none
    → lookup i (unique_addresses_of cs m) ≡ none
unfolding lookup unique_addresses_of
unique_none cs [] i e = refl
unique_none cs ((j, []) ∷ m) i e = ground (arith, unique_none cs m i)
unique_none cs ((j, index ∷ []) ∷ m) i e = ground (arith, unique_none cs m i)
unique_none cs ((j, index ∷ other ∷ indexes) ∷ m) i e = ground (arith, unique_none cs m i)

-- An identity that is resolved stands at one index, and its address is the one there.
unique_lem :
    (cs : List IsolationCandidate) (m : Map String (List ℕ)) (i : String) (address : ℕ)
    → Distinct m
    → lookup i (unique_addresses_of cs m) ≡ some address
    → (j : ℕ) × (indexes_of i m ≡ j ∷ []) × (address ≡ address_at cs j)
unfolding lookup unique_addresses_of
unique_lem cs [] i address d e = absurd (ground (arith, e))
unique_lem cs ((k, []) ∷ m) i address d e =
    let (j, at_j, is_j) = unique_lem cs m i address d.1 e in
    (j, ground (arith, at_j, e, d.0, eq_iff k i, unique_none cs m i), is_j)
unique_lem cs ((k, index ∷ other ∷ indexes) ∷ m) i address d e =
    let (j, at_j, is_j) = unique_lem cs m i address d.1 e in
    (j, ground (arith, at_j, e, d.0, eq_iff k i, unique_none cs m i), is_j)
unique_lem cs ((k, index ∷ []) ∷ m) i address d e = elim (Bool-cases (str_eq k i)) [
  | inl same ↦ (index, ground (arith, same), ground (arith, same, e))
  | inr other ↦
      let (j, at_j, is_j) = unique_lem cs m i address d.1 (ground (arith, other, e)) in
      (j, ground (arith, other, at_j), is_j)
]

positions-le :
    (n j : ℕ) (i : String) (cs : List IsolationCandidate) → positions n i cs ≡ j ∷ [] → n ≤ j
unfolding positions
positions-le n j i [] e = absurd (ground (arith, e))
positions-le n j i (c ∷ cs) e = ground (arith, positions-le (suc n) j i cs, e)

positions_none :
    (n : ℕ) (i : String) (cs : List IsolationCandidate)
    → positions n i cs ≡ []
    → length (keep (named i) cs) ≡ 0
unfolding positions
positions_none n i [] e = refl
positions_none n i (c ∷ cs) e = ground (arith, positions_none (suc n) i cs)

-- Who has this identity and this address.
abbrev pub named_at : String → ℕ → IsolationCandidate → Bool
named_at i a c = named i c && (c.ipv4_address == a)

named_at-named :
    (i : String) (a : ℕ) (cs : List IsolationCandidate)
    → All (λ c. named_at i a c ≡ true → named i c ≡ true) cs
named_at-named i a [] = tt
named_at-named i a (c ∷ cs) = (λ h. ground arith, named_at-named i a cs)

named_first :
    (i : String) (a : ℕ) (c : IsolationCandidate) (cs : List IsolationCandidate)
    → named i c ≡ true
    → c.ipv4_address ≡ a
    → length (keep (named i) cs) ≡ 0
    → length (keep (named_at i a) (c ∷ cs)) ≡ 1
named_first i a c cs here at_a empty =
    ground (
      arith,
      here,
      at_a,
      empty,
      length-keep_mono (named_at i a) (named i) cs (named_at-named i a cs),
    )

named_later :
    (i : String) (a : ℕ) (c : IsolationCandidate) (cs : List IsolationCandidate)
    → named i c ≡ false
    → length (keep (named_at i a) cs) ≡ 1
    → length (keep (named_at i a) (c ∷ cs)) ≡ 1
named_later i a c cs later one = ground (arith, later, one)

-- Where an identity stands once, the candidate there is the only one that has it.
positions_one :
    (n j : ℕ) (i : String) (cs : List IsolationCandidate)
    → positions n i cs ≡ j ∷ []
    → (length (keep (named i) cs) ≡ 1) × (length (keep (named_at i (address_at cs (j - n))) cs) ≡ 1)
unfolding positions
positions_one n j i [] e = absurd (ground (arith, e))
positions_one n j i (c ∷ cs) e = elim (Bool-cases (named i c)) [
  | inl here ↦
      let first : n ≡ j = ground (arith, here, e) in
      let empty : positions (suc n) i cs ≡ [] = ground (arith, here, e) in
      let at_first : address_at (c ∷ cs) (j - n) ≡ c.ipv4_address =
        (let start : j - n ≡ 0 = omega (arith, first) in rw start refl) in
      (
        ground (arith, here, positions_none (suc n) i cs empty),
        named_first i (address_at (c ∷ cs) (j - n)) c cs here (sym at_first)
            (positions_none (suc n) i cs empty),
      )
  | inr later ↦
      let rest : positions (suc n) i cs ≡ j ∷ [] = ground (arith, later, e) in
      let ih = positions_one (suc n) j i cs rest in
      let step : address_at (c ∷ cs) (j - n) ≡ address_at cs (j - suc n) =
        (let after : j - n ≡ suc (j - suc n) = omega (arith, positions-le (suc n) j i cs rest) in
          rw after refl) in
      (
        ground (arith, later, ih.0),
        named_later i (address_at (c ∷ cs) (j - n)) c cs later
            (subst (λ a. length (keep (named_at i a) cs) ≡ 1) (sym step) ih.1),
      )
]

-- An identity that is resolved to an address is one candidate's, and that one has the address.
claimed_by_unique :
    (cs : List IsolationCandidate) (i : String) (a : ℕ)
    → lookup i (claimed_by cs).unique_addresses ≡ some a
    → (length (keep (named i) cs) ≡ 1) × (length (keep (named_at i a) cs) ≡ 1)
unfolding claimed_by lookup
claimed_by_unique cs i a e =
    let (j, at_j, is_j) =
      unique_lem cs (identify 0 cs ([], [])).0 i a (identify-Distinct cs 0 ([], []) tt) e in
    let one = positions_one 0 j i cs (sym (identify-indexes cs 0 ([], []) i) ∙ at_j) in
    let there : address_at cs (j - 0) ≡ a =
      (let same : j - 0 ≡ j = omega arith in rw same (sym is_j)) in
    (one.0, subst (λ b. length (keep (named_at i b) cs) ≡ 1) there one.1)

abbrev pub stands_at : String → ℕ → IsolationParticipant → Bool
stands_at i a p = has_identity i p && (p.ipv4_address == a)

identity_kept :
    (i : String) (o : Option String) → is_identified i (filter_some valid_identity o) ≡ is_named i o
identity_kept i none = refl
identity_kept i (some j) = ground arith

identities_counted :
    (k : Claimed) (cs : List IsolationCandidate) (i : String)
    → length (keep (has_identity i) (participants_of k cs)) ≡ length (keep (named i) cs)
unfolding participant_of
identities_counted k [] i = refl
identities_counted k (c ∷ cs) i = rw (identity_kept i c.isolation_id) (
    length-if (named i c) (participant_of k c) (keep (has_identity i) (participants_of k cs)) c
      (keep (named i) cs) (identities_counted k cs i))

stands_counted :
    (k : Claimed) (cs : List IsolationCandidate) (i : String) (a : ℕ)
    → length (keep (stands_at i a) (participants_of k cs)) ≡ length (keep (named_at i a) cs)
unfolding participant_of
stands_counted k [] i a = refl
stands_counted k (c ∷ cs) i a = rw (identity_kept i c.isolation_id) (
    length-if (named_at i a c) (participant_of k c) (keep (stands_at i a) (participants_of k cs)) c
      (keep (named_at i a) cs) (stands_counted k cs i a))

-- One participant has the identity, and it is at the address.
abbrev pub OpensOne : List IsolationParticipant → IsolationAllowance → Type 0
OpensOne ps a =
    (length (keep (has_identity a.destination_id) ps) ≡ 1)
    × (length (keep (stands_at a.destination_id a.destination_address) ps) ≡ 1)

module _ (cs : List IsolationCandidate) where
  abbrev all_participants : List IsolationParticipant
  all_participants = sort_by participant_before (participants_of (claimed_by cs) cs)

  opens_one :
      (keys : List AllowKey) (c : IsolationCandidate)
      → All (Resolved (claimed_by cs).unique_addresses (claimed_by cs).accepts c) keys
      → All (OpensOne all_participants) (allowances_of keys)
  opens_one [] c h = tt
  opens_one ((i, (a, (port, protocol))) ∷ keys) c h =
      let one = claimed_by_unique cs i a h.0.0 in
      (
        (
          omega (
            arith,
            keep-sort_by participant_before (has_identity i) (participants_of (claimed_by cs) cs),
            identities_counted (claimed_by cs) cs i,
            one.0,
          ),
          omega (
            arith,
            keep-sort_by participant_before (stands_at i a) (participants_of (claimed_by cs) cs),
            stands_counted (claimed_by cs) cs i a,
            one.1,
          ),
        ),
        opens_one keys c h.1,
      )

  participants_of-OpensOne :
      (ds : List IsolationCandidate)
      → All (λ p. All (OpensOne all_participants) p.allowances) (participants_of (claimed_by cs) ds)
  unfolding participant_of
  participants_of-OpensOne [] = tt
  participants_of-OpensOne (d ∷ ds) =
      let k : Claimed = claimed_by cs in
      (
        opens_one (entries (allowing_of k.unique_addresses k.accepts d).allowed) d (
            All-entries (Resolved k.unique_addresses k.accepts d)
              (allowing_of k.unique_addresses k.accepts d).allowed
              (allowing_of-Resolved k.unique_addresses k.accepts d)),
        participants_of-OpensOne ds,
      )

-- The participant that an allowance names, at its address; where the policy is eligible, the only one
-- there.
abbrev pub IsOpening : IsolationPolicy → IsolationAllowance → Type 0
IsOpening policy a =
    OpensOne policy.participants a
    × ((policy.eligible_for_enforcement ≡ false)
        ⊎ (length (keep (has_address a.destination_address) policy.participants) ≡ 1))

stands_at-has_address :
    (i : String) (a : ℕ) (ps : List IsolationParticipant)
    → All (λ p. stands_at i a p ≡ true → has_address a p ≡ true) ps
stands_at-has_address i a [] = tt
stands_at-has_address i a (p ∷ ps) = (λ h. ground arith, stands_at-has_address i a ps)

OpensOne-IsOpening :
    (policy : IsolationPolicy) (a : IsolationAllowance)
    → (policy.eligible_for_enforcement ≡ true
        → length (keep (has_address a.destination_address) policy.participants) ≤ 1)
    → OpensOne policy.participants a
    → IsOpening policy a
OpensOne-IsOpening policy a one opens = (
  opens,
  elim (Bool-cases policy.eligible_for_enforcement) [
    | inr barred ↦ inl barred
    | inl eligible ↦ inr (
        omega (
          arith,
          one eligible,
          opens.1,
          length-keep_mono (stands_at a.destination_id a.destination_address)
              (has_address a.destination_address) policy.participants
              (stands_at-has_address a.destination_id a.destination_address policy.participants),
        ))
  ],
)

policy_allowances :
    (network bridge subnet : String) (candidates : List IsolationCandidate) (now : ℕ)
    → All
        (λ p.
          All
            (OpensOne (build_policy network bridge subnet candidates now).participants)
            p.allowances)
        (build_policy network bridge subnet candidates now).participants
unfolding build_policy policy_of
policy_allowances network bridge subnet candidates now =
    let cs : List IsolationCandidate = (screen_kubernetes_candidates candidates).0 in
    sort_by-All (λ p. All (OpensOne (all_participants cs)) p.allowances) participant_before
      (participants_of (claimed_by cs) cs) (participants_of-OpensOne cs cs)

-- Every allowance of the policy names an identity that exactly one participant has, and opens that
-- participant's address; in a policy that is eligible for enforcement no other participant has that
-- address.
pub build_policy_allowances :
    (network bridge subnet : String) (candidates : List IsolationCandidate) (now : ℕ)
    → All
        (λ p. All (IsOpening (build_policy network bridge subnet candidates now)) p.allowances)
        (build_policy network bridge subnet candidates now).participants
build_policy_allowances network bridge subnet candidates now =
    let policy : IsolationPolicy = build_policy network bridge subnet candidates now in
    All-map
      (λ p.
        All-map
          (λ a. OpensOne-IsOpening policy a (λ e.
            (build_policy_eligible network bridge subnet candidates now e).2 a.destination_address))
          p.allowances)
      policy.participants (policy_allowances network bridge subnet candidates now)
