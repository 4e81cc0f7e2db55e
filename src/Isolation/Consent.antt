-- ===== src/Isolation/Consent.antt =====
-- Whom the destinations of src/isolation.rs accept, and whom a pod may reach.
use egressy.Base.{
  ℕ, ◌≡◌, refl, ◌⊎◌, inl, inr, String, Bool, true, false, ◌&&◌, Option, none, some, List, [], ◌∷◌,
  All, All-entries, Map, Set, has, lookup, lookup-insert, str_eq, eq_iff, any, arith, Bool-cases,
  Option-cases, is_some, if◌then◌else◌, string_key, nat_key, pair_key, entries, insert,
}
use egressy.Isolation.{IsolationCandidate, kubernetes, valid_identity, protocol_key}
use egressy.Isolation.Policy.{
  AllowKey, accepted_by, accept_entries, accepted_of, accept_one, accepts_of, Notes,
}
use egressy.Isolation.Building.{Claimed, claimed_by, allowing_of, allowances_of, participant_of}
use egressy.Isolation.Allowances.{Resolved, allowing_of-Resolved}

-- A candidate of this identity that lists the source, a valid identity, among what it accepts.
abbrev pub consents : String → String → IsolationCandidate → Bool
consents destination source c = elim c.isolation_id [
  | none ↦ false
  | some identity ↦
      str_eq identity destination
      && (valid_identity source && any (λ entry. str_eq entry source) (accept_entries c.accept))
]

accepted_of_lem :
    (source : String) (es : List String)
    → has source (accepted_of es) ≡ true
    → (valid_identity source && any (λ entry. str_eq entry source) es) ≡ true
unfolding lookup
accepted_of_lem source [] h = absurd (ground (arith, h))
accepted_of_lem source (e ∷ es) h = elim (Bool-cases (valid_identity e)) [
  | inr bad ↦ ground (arith, accepted_of_lem source es (rw bad at h))
  | inl good ↦ ground (
    arith,
    good,
    rw good at h,
    lookup-insert e source tt (accepted_of es),
    eq_iff e source,
    accepted_of_lem source es,
  )
]

accepted_by-insert :
    (identity : String) (accepted : Set String) (m : Map String (Set String))
    (destination source : String)
    → accepted_by (insert identity accepted m) destination (some source) ≡ (
        if str_eq identity destination
        then has source accepted
        else accepted_by m destination (some source))
accepted_by-insert identity accepted m destination source =
    rw (lookup-insert identity destination accepted m, accepted_by)
      (elim (Bool-cases (str_eq identity destination)) [
        | inl same ↦ rw same refl
        | inr other ↦ rw other refl
      ])

accept_one_lem :
    (unique : Map String ℕ) (c : IsolationCandidate) (m : Map String (Set String)) (notes : Notes)
    (destination source : String)
    → accepted_by (accept_one unique c (m, notes)).0 destination (some source) ≡ true
    → (accepted_by m destination (some source) ≡ true) ⊎ (consents destination source c ≡ true)
accept_one_lem unique c m notes destination source h = elim (Option-cases c.isolation_id) [
  | inl e ↦ inl (rw e at h)
  | inr (identity, e) ↦ elim (Bool-cases (is_some (lookup identity unique))) [
    | inr ambiguous ↦ inl (rw ambiguous at (rw e at h))
    | inl alone ↦
        let stored =
          accepted_by-insert identity (accepted_of (accept_entries c.accept)) m destination
            source in
        let now = rw alone at (rw e at h) in
        elim (Bool-cases (str_eq identity destination)) [
          | inr other ↦ inl (ground (arith, stored, other, now))
          | inl same ↦ inr (
              ground
                (arith, e, same, stored, now, accepted_of_lem source (accept_entries c.accept)))
        ]
  ]
]

accepts_of_lem :
    (unique : Map String ℕ) (cs : List IsolationCandidate) (state : Map String (Set String) × Notes)
    (destination source : String)
    → accepted_by (accepts_of unique cs state).0 destination (some source) ≡ true
    → (accepted_by state.0 destination (some source) ≡ true)
      ⊎ (any (consents destination source) cs ≡ true)
unfolding accepts_of
accepts_of_lem unique [] state destination source h = inl h
accepts_of_lem unique (c ∷ cs) state destination source h =
    elim (accepts_of_lem unique cs (accept_one unique c state) destination source h) [
      | inr later ↦ inr (ground (arith, later))
      | inl now ↦ elim (accept_one_lem unique c state.0 state.1 destination source now) [
        | inl before ↦ inl before
        | inr here ↦ inr (ground (arith, here))
      ]
    ]

-- Some candidate of this identity accepts who has this one.
abbrev pub is_accepted : List IsolationCandidate → String → Option String → Bool
is_accepted cs destination none = false
is_accepted cs destination (some source) = any (consents destination source) cs

claimed_by_accepts :
    (cs : List IsolationCandidate) (destination : String) (o : Option String)
    → accepted_by (claimed_by cs).accepts destination o ≡ true
    → is_accepted cs destination o ≡ true
unfolding claimed_by lookup
claimed_by_accepts cs destination none h = h
claimed_by_accepts cs destination (some source) h =
    elim (accepts_of_lem (claimed_by cs).unique_addresses cs ([], _) destination source h) [
      | inl nothing ↦ absurd (ground (arith, nothing))
      | inr some_one ↦ some_one
    ]

-- Whatever a pod is allowed, a candidate of the destination's identity lists the pod's identity, which
-- is valid, among the entries of what it accepts.
pub participant_of_pod :
    (cs : List IsolationCandidate) (pod : IsolationCandidate)
    → pod.source ≡ kubernetes
    → All
        (λ a. is_accepted cs a.destination_id pod.isolation_id ≡ true)
        (participant_of (claimed_by cs) pod).allowances
unfolding participant_of
participant_of_pod cs pod is_pod =
    let k : Claimed = claimed_by cs in
    accepted (entries (allowing_of k.unique_addresses k.accepts pod).allowed) (
      All-entries (Resolved k.unique_addresses k.accepts pod)
        (allowing_of k.unique_addresses k.accepts pod).allowed
        (allowing_of-Resolved k.unique_addresses k.accepts pod))
  where
    accepted :
        (keys : List AllowKey)
        → All (Resolved (claimed_by cs).unique_addresses (claimed_by cs).accepts pod) keys
        → All (λ a. is_accepted cs a.destination_id pod.isolation_id ≡ true) (allowances_of keys)
    accepted [] h = tt
    accepted ((i, (a, (port, protocol))) ∷ keys) h = (
      claimed_by_accepts cs i pod.isolation_id (ground (arith, h.0.1, is_pod)),
      accepted keys h.1,
    )
