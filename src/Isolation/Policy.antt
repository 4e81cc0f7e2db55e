-- ===== src/Isolation/Policy.antt =====
-- src/isolation.rs: the policy of a bridge, built from its candidates. The subnet is given as the
-- text that it displays as.
use egressy.Base.{
  ℕ, zero, suc, String, Bool, true, false, not, Option, none, some, List, [], ◌∷◌, ◌++◌, concat,
  length, keep, ltb, if◌then◌else◌, is_some, is_empty, Map, lookup, insert, Set, has, put, split,
  trim, map, nat_key, string_key, pair_key, append,
}
use egressy.Isolation.{
  IsolationCandidate, CandidateSource, docker, kubernetes, IsolationProtocol, AllowSpec, mac_of,
  valid_identity, ip_text, protocol_key,
}

abbrev pub push : {A : Type 0} → A → List A → List A
push a xs = xs ++ (a ∷ [])

abbrev pub indexes_of : String → Map String (List ℕ) → List ℕ
indexes_of identity m = elim (lookup identity m) [ none ↦ [] | some indexes ↦ indexes ]

-- The first loop: where each valid identity stands, and who has none.
abbrev pub identify_one :
    Option String
    → String
    → ℕ
    → Map String (List ℕ) × List String
    → Map String (List ℕ) × List String
identify_one none name index (m, issues) =
    (m, push (append name " is attached without egressy.isolation-id") issues)
identify_one (some identity) name index (m, issues) =
    if valid_identity identity
    then (insert identity (push index (indexes_of identity m)) m, issues)
    else (m, push (append name " has an invalid egressy.isolation-id") issues)

unfoldable pub identify :
    ℕ
    → List IsolationCandidate
    → Map String (List ℕ) × List String
    → Map String (List ℕ) × List String
identify index [] state = state
identify index (c ∷ cs) state =
    identify (suc index) cs (identify_one c.isolation_id c.name index state)

abbrev pub duplicate_identities : Map String (List ℕ) → List String
duplicate_identities [] = []
duplicate_identities ((identity, indexes) ∷ m) =
    let rest = duplicate_identities m in
    if ltb 1 (length indexes)
    then concat ("isolation identity " ∷ identity ∷ " is duplicated" ∷ []) ∷ rest
    else rest

abbrev pub macs_at : String → Map String (Set ℕ) → Set ℕ
macs_at mac m = elim (lookup mac m) [ none ↦ [] | some addresses ↦ addresses ]

abbrev pub claim_mac : Option String → ℕ → Map String (Set ℕ) → Map String (Set ℕ)
claim_mac none address m = m
claim_mac (some mac) address m = insert mac (put address (macs_at mac m)) m

unfoldable pub mac_claims_of : List IsolationCandidate → Map String (Set ℕ) → Map String (Set ℕ)
mac_claims_of [] m = m
mac_claims_of (c ∷ cs) m = mac_claims_of cs (claim_mac (mac_of c) c.ipv4_address m)

abbrev pub shared_addresses : Map ℕ ℕ → List String
shared_addresses [] = []
shared_addresses ((address, n) ∷ m) =
    let rest = shared_addresses m in
    if ltb 1 n
    then concat ("address " ∷ ip_text address ∷ " is claimed by more than one participant" ∷ [])
      ∷ rest
    else rest

abbrev pub shared_macs : Map String (Set ℕ) → List String
shared_macs [] = []
shared_macs ((mac, addresses) ∷ m) =
    let rest = shared_macs m in
    if ltb 1 (length addresses)
    then concat ("MAC " ∷ mac ∷ " is claimed by more than one address" ∷ []) ∷ rest
    else rest

-- `candidates[i].ipv4_address`, of an index that the first loop stored.
abbrev pub address_at : List IsolationCandidate → ℕ → ℕ
address_at [] i = 0
address_at (c ∷ cs) zero = c.ipv4_address
address_at (c ∷ cs) (suc i) = address_at cs i

unfoldable pub unique_addresses_of : List IsolationCandidate → Map String (List ℕ) → Map String ℕ
unique_addresses_of cs [] = []
unique_addresses_of cs ((identity, []) ∷ m) = unique_addresses_of cs m
unique_addresses_of cs ((identity, index ∷ []) ∷ m) =
    (identity, address_at cs index) ∷ unique_addresses_of cs m
unique_addresses_of cs ((identity, index ∷ other ∷ indexes) ∷ m) = unique_addresses_of cs m

-- What an operator must resolve, and what a pod's author wrote in vain.
pub record Notes : Type 0 where
  pub issues : List String
  pub rejected : List String

abbrev pub note : CandidateSource → List String → Notes → Notes
note docker problems n = record n { issues = n.issues ++ problems }
note kubernetes problems n = record n { rejected = n.rejected ++ problems }

abbrev pub or_empty : Option String → String
or_empty none = ""
or_empty (some s) = s

abbrev pub accept_entries : Option String → List String
accept_entries accept = keep (λ entry. not (is_empty entry)) (map trim (split 44 (or_empty accept)))

abbrev pub accepted_of : List String → Set String
accepted_of [] = []
accepted_of (entry ∷ es) =
    let rest = accepted_of es in if valid_identity entry then put entry rest else rest

abbrev pub bad_accepts : String → List String → List String
bad_accepts name [] = []
bad_accepts name (entry ∷ es) =
    let rest = bad_accepts name es in
    if valid_identity entry
    then rest
    else concat (name ∷ ": invalid isolation accept entry " ∷ entry ∷ []) ∷ rest

abbrev pub accept_one :
    Map String ℕ
    → IsolationCandidate
    → Map String (Set String) × Notes
    → Map String (Set String) × Notes
accept_one unique c (accepts, notes) = elim c.isolation_id [
  | none ↦ (accepts, notes)
  | some identity ↦
      if is_some (lookup identity unique)
      then (
        insert identity (accepted_of (accept_entries c.accept)) accepts,
        note c.source (bad_accepts c.name (accept_entries c.accept)) notes,
      )
      else (accepts, notes)
]

unfoldable pub accepts_of :
    Map String ℕ
    → List IsolationCandidate
    → Map String (Set String) × Notes
    → Map String (Set String) × Notes
accepts_of unique [] state = state
accepts_of unique (c ∷ cs) state = accepts_of unique cs (accept_one unique c state)

abbrev pub AllowKey : Type 0
AllowKey = String × (ℕ × (ℕ × IsolationProtocol))

-- What a candidate's allowances come to.
pub record Allowing : Type 0 where
  pub allowed : Set AllowKey
  pub problems : List String
  pub unaccepted : List String

-- A destination that names the source among what it accepts.
abbrev pub accepted_by : Map String (Set String) → String → Option String → Bool
accepted_by accepts destination none = false
accepted_by accepts destination (some source) = elim (lookup destination accepts) [
  | none ↦ false
  | some accepted ↦ has source accepted
]

-- A container's allowance needs no acceptance.
abbrev pub may_reach : Map String (Set String) → IsolationCandidate → String → Bool
may_reach accepts c destination = elim c.source [
  | docker ↦ true
  | kubernetes ↦ accepted_by accepts destination c.isolation_id
]

unfoldable pub allow_spec :
    Map String ℕ → Map String (Set String) → IsolationCandidate → AllowSpec → Allowing → Allowing
allow_spec unique accepts c spec state = elim (lookup spec.destination_id unique) [
  | none ↦ record state {
    problems =
        push (concat (c.name ∷ " allows unresolved isolation identity " ∷ spec.destination_id ∷ []))
          state.problems;
  }
  | some address ↦
      if may_reach accepts c spec.destination_id
      then record state {
        allowed = put (spec.destination_id, (address, (spec.port, spec.protocol))) state.allowed;
      }
      else record state {
        unaccepted =
            push
              (concat (
                c.name ∷ " allows " ∷ spec.destination_id ∷ " but " ∷ spec.destination_id
                ∷ " does not accept it" ∷ []))
              state.unaccepted;
      }
]

unfoldable pub allow_specs :
    Map String ℕ
    → Map String (Set String)
    → IsolationCandidate
    → List AllowSpec
    → Allowing
    → Allowing
unfolding allow_spec
allow_specs unique accepts c [] state = state
allow_specs unique accepts c (spec ∷ specs) state =
    allow_specs unique accepts c specs (allow_spec unique accepts c spec state)
