-- ===== src/Isolation/Binding.antt =====
-- The binding of addresses to MACs in the policy that src/isolation.rs builds.
use egressy.Base.{
  ℕ, ◌≡◌, refl, ◌≤◌, ◌+◌, inl, inr, String, Bool, true, false, ◌&&◌, Option, none, some, List, [],
  ◌∷◌, length, keep, any, All, All-map, any_found, keep_none, Map, lookup, lookup-insert, Set, has,
  put, ◌==◌, ==_iff, str_eq, eq_iff, arith, Bool-cases, filter_some, if◌then◌else◌, keep-sort_by,
  length-keep_mono, nat_key, string_key,
}
use egressy.Isolation.{IsolationCandidate, IsolationParticipant, mac_of}
use egressy.Isolation.Screening.{claims, claim, count_addresses, screen_kubernetes_candidates}
use egressy.Isolation.Policy.{macs_at, claim_mac, mac_claims_of}
use egressy.Isolation.Building.{
  Claimed, claimed_by, bound_mac, participant_of, participants_of, participant_before, policy_of,
  build_policy,
}

claims-claim :
    (a b : ℕ) (m : Map ℕ ℕ) → claims b (claim a m) ≡ claims b m + (if a == b then 1 else 0)
claims-claim a b m = ground (arith, lookup-insert a b (claims a m + 1) m)

abbrev pub at : ℕ → IsolationCandidate → Bool
at a c = c.ipv4_address == a

-- The count of an address is the number of candidates that claim it.
pub claims-count_addresses :
    (cs : List IsolationCandidate) (m : Map ℕ ℕ) (a : ℕ)
    → claims a (count_addresses cs m) ≡ claims a m + length (keep (at a) cs)
claims-count_addresses [] m a = omega arith
claims-count_addresses (c ∷ cs) m a =
    ground
      (arith, claims-count_addresses cs (claim c.ipv4_address m) a, claims-claim c.ipv4_address a m)

claim_mac-kept :
    (o : Option String) (a b : ℕ) (mac : String) (m : Map String (Set ℕ))
    → has b (macs_at mac m) ≡ true
    → has b (macs_at mac (claim_mac o a m)) ≡ true
claim_mac-kept none a b mac m h = h
claim_mac-kept (some other) a b mac m h = ground (
  arith,
  lookup-insert other mac (put a (macs_at other m)) m,
  lookup-insert a b tt (macs_at other m),
  eq_iff other mac,
)

claim_mac-claimed :
    (o : Option String) (a : ℕ) (mac : String) (m : Map String (Set ℕ))
    → o ≡ some mac
    → has a (macs_at mac (claim_mac o a m)) ≡ true
claim_mac-claimed none a mac m e = cc
claim_mac-claimed (some other) a mac m e = ground (
  arith,
  lookup-insert other mac (put a (macs_at other m)) m,
  lookup-insert a a tt (macs_at other m),
  eq_iff other mac,
)

mac_claims_of-kept :
    (cs : List IsolationCandidate) (b : ℕ) (mac : String) (m : Map String (Set ℕ))
    → has b (macs_at mac m) ≡ true
    → has b (macs_at mac (mac_claims_of cs m)) ≡ true
unfolding mac_claims_of
mac_claims_of-kept [] b mac m h = h
mac_claims_of-kept (c ∷ cs) b mac m h =
    mac_claims_of-kept cs b mac (claim_mac (mac_of c) c.ipv4_address m)
      (claim_mac-kept (mac_of c) c.ipv4_address b mac m h)

-- Every candidate's address is among those that claim its MAC.
mac_claims_of-All :
    (cs : List IsolationCandidate) (mac : String) (m : Map String (Set ℕ))
    → All
        (λ c. mac_of c ≡ some mac → has c.ipv4_address (macs_at mac (mac_claims_of cs m)) ≡ true)
        cs
unfolding mac_claims_of
mac_claims_of-All [] mac m = tt
mac_claims_of-All (c ∷ cs) mac m = (
  λ e.
      mac_claims_of-kept cs c.ipv4_address mac (claim_mac (mac_of c) c.ipv4_address m)
        (claim_mac-claimed (mac_of c) c.ipv4_address mac m e),
  mac_claims_of-All cs mac (claim_mac (mac_of c) c.ipv4_address m),
)

has_single : (s : Set ℕ) (a b : ℕ) → length s ≡ 1 → has a s ≡ true → has b s ≡ true → a ≡ b
unfolding lookup
has_single [] a b l ha hb = cc
has_single ((c, u) ∷ []) a b l ha hb = ground arith
has_single ((c, u) ∷ d ∷ s) a b l ha hb = absurd (omega arith)

abbrev pub carries : String → Option String → Bool
carries mac none = false
carries mac (some m) = str_eq m mac

abbrev pub carries_mac : String → IsolationParticipant → Bool
carries_mac mac p = carries mac p.mac

binds : Claimed → String → IsolationCandidate → Bool
unfolding bound_mac
binds k mac c = carries mac (bound_mac k.address_claims k.mac_claims c)

pub length-if :
    {A B : Type 0} (b : Bool) (x : A) (xs : List A) (y : B) (ys : List B)
    → length xs ≡ length ys
    → length (if b then x ∷ xs else xs) ≡ length (if b then y ∷ ys else ys)
length-if true x xs y ys e = omega (arith, e)
length-if false x xs y ys e = e

count_participants :
    (k : Claimed) (mac : String) (cs : List IsolationCandidate)
    → length (keep (carries_mac mac) (participants_of k cs)) ≡ length (keep (binds k mac) cs)
unfolding binds participant_of
count_participants k mac [] = refl
count_participants k mac (c ∷ cs) =
    length-if (binds k mac c) (participant_of k c) (keep (carries_mac mac) (participants_of k cs)) c
      (keep (binds k mac) cs) (count_participants k mac cs)

-- What makes a candidate the holder of a MAC.
abbrev pub Holds : Claimed → String → IsolationCandidate → Type 0
Holds k mac c =
    (mac_of c ≡ some mac)
    × (claims c.ipv4_address k.address_claims ≡ 1)
    × (length (macs_at mac k.mac_claims) ≡ 1)

binds-Holds :
    (k : Claimed) (mac : String) (c : IsolationCandidate) → binds k mac c ≡ true → Holds k mac c
unfolding binds bound_mac
binds-Holds k mac c = held (mac_of c)
  where
    held :
        (o : Option String)
        → carries mac (
            filter_some
              (λ m.
                (claims c.ipv4_address k.address_claims == 1)
                && (length (macs_at m k.mac_claims) == 1))
              o)
          ≡ true
        → (o ≡ some mac)
          × (claims c.ipv4_address k.address_claims ≡ 1)
          × (length (macs_at mac k.mac_claims) ≡ 1)
    held none h = ground arith
    held (some m) h = elim (Bool-cases (str_eq m mac)) [
      | inl e ↦ rw (← (eq_iff m mac).0 e) (ground arith)
      | inr e ↦ absurd (ground (arith, e))
    ]

module _ (cs : List IsolationCandidate) (mac : String) where
  -- Every holder is at an address that claims the MAC.
  holders :
      All
        (λ c.
          binds (claimed_by cs) mac c ≡ true
          → Holds (claimed_by cs) mac c
            × (has c.ipv4_address (macs_at mac (mac_claims_of cs [])) ≡ true))
        cs
  holders =
      All-map
        {P = λ c.
          mac_of c ≡ some mac → has c.ipv4_address (macs_at mac (mac_claims_of cs [])) ≡ true}
        (λ c claimed b.
          (binds-Holds (claimed_by cs) mac c b, claimed (binds-Holds (claimed_by cs) mac c b).0))
        cs (mac_claims_of-All cs mac [])

  one_holder : length (keep (binds (claimed_by cs) mac) cs) ≤ 1
  unfolding claimed_by
  one_holder = elim (Bool-cases (any (binds (claimed_by cs) mac) cs)) [
    | inr none_is ↦ omega (arith, keep_none (binds (claimed_by cs) mac) cs none_is)
    | inl some_one ↦ at_most_one (any_found (binds (claimed_by cs) mac) cs some_one holders)
  ]
    where
      at_most_one :
          (c : IsolationCandidate) × (Holds (claimed_by cs) mac c
              × (has c.ipv4_address (macs_at mac (mac_claims_of cs [])) ≡ true))
          → length (keep (binds (claimed_by cs) mac) cs) ≤ 1
      at_most_one (c, h) = omega (
        arith,
        claims-count_addresses cs [] c.ipv4_address,
        h.0.1,
        length-keep_mono (binds (claimed_by cs) mac) (at c.ipv4_address) cs (
            All-map
              (λ d others b. (==_iff d.ipv4_address c.ipv4_address).1 (
                has_single (macs_at mac (mac_claims_of cs [])) d.ipv4_address c.ipv4_address h.0.2
                  (others b).1 h.1))
              cs holders),
      )

-- In the policy of a bridge a MAC is bound to one participant at most, whatever the candidates
-- claim.
pub build_policy_one_holder :
    (network bridge subnet : String) (candidates : List IsolationCandidate) (now : ℕ) (mac : String)
    → length
        (keep (carries_mac mac) (build_policy network bridge subnet candidates now).participants)
      ≤ 1
unfolding build_policy policy_of
build_policy_one_holder network bridge subnet candidates now mac =
    let kept : List IsolationCandidate = (screen_kubernetes_candidates candidates).0 in
    omega (
      arith,
      keep-sort_by participant_before (carries_mac mac) (participants_of (claimed_by kept) kept),
      count_participants (claimed_by kept) mac kept,
      one_holder kept mac,
    )
