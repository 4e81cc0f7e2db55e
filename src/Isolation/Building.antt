-- ===== src/Isolation/Building.antt =====
-- src/isolation.rs: the participants of the policy and the policy itself.
use egressy.Base.{
  ℕ, String, Bool, true, false, not, ◌&&◌, Option, none, some, List, [], ◌∷◌, ◌++◌, concat, length,
  ◌==◌, if◌then◌else◌, Map, filter_some, Set, entries, str_before, str_eq, sort_by, dedup, nat_key,
  string_key,
}
use egressy.Base.Results.{Result, ok, err}
use egressy.Isolation.{
  IsolationCandidate, IsolationParticipant, IsolationAllowance, IsolationPolicy, AllowSpec, mac_of,
  valid_identity, parse_allow_list,
}
use egressy.Isolation.Screening.{screen_kubernetes_candidates, claims, count_addresses, in_order}
use egressy.Isolation.Policy.{
  identify, duplicate_identities, macs_at, mac_claims_of, shared_addresses, shared_macs,
  unique_addresses_of, Notes, note, accepts_of, AllowKey, Allowing, allow_specs,
}

abbrev pub nothing_allowed : Allowing
nothing_allowed = record { allowed = []; problems = []; unaccepted = [] }

unfoldable pub allow_parsed :
    Map String ℕ
    → Map String (Set String)
    → IsolationCandidate
    → Result String (List AllowSpec)
    → Allowing
unfolding allow_specs
allow_parsed unique accepts c (ok specs) = allow_specs unique accepts c specs nothing_allowed
allow_parsed unique accepts c (err error) = record nothing_allowed {
  problems = concat (c.name ∷ ": " ∷ error ∷ []) ∷ [];
}

unfoldable pub allowing_of : Map String ℕ → Map String (Set String) → IsolationCandidate → Allowing
unfolding allow_parsed
allowing_of unique accepts c = elim c.allow [
  | none ↦ nothing_allowed
  | some raw ↦ allow_parsed unique accepts c (parse_allow_list raw)
]

-- An address and a MAC that no other participant claims are bound to each other.
unfoldable pub bound_mac : Map ℕ ℕ → Map String (Set ℕ) → IsolationCandidate → Option String
bound_mac address_claims mac_claims c =
    filter_some
      (λ mac. (claims c.ipv4_address address_claims == 1) && (length (macs_at mac mac_claims) == 1))
      (mac_of c)

abbrev pub allowance_of : AllowKey → IsolationAllowance
allowance_of (destination_id, (destination_address, (port, protocol))) = record {
  destination_id = destination_id;
  destination_address = destination_address;
  port = port;
  protocol = protocol;
}

abbrev pub allowances_of : List AllowKey → List IsolationAllowance
allowances_of [] = []
allowances_of (a ∷ more) = allowance_of a ∷ allowances_of more

-- What the candidates claim together.
pub record Claimed : Type 0 where
  pub address_claims : Map ℕ ℕ
  pub mac_claims : Map String (Set ℕ)
  pub unique_addresses : Map String ℕ
  pub accepts : Map String (Set String)

unfoldable pub participant_of : Claimed → IsolationCandidate → IsolationParticipant
unfolding bound_mac allowing_of valid_identity
participant_of k c = record {
  container_id = c.container_id;
  name = c.name;
  isolation_id = filter_some valid_identity c.isolation_id;
  ipv4_address = c.ipv4_address;
  allowances = allowances_of (entries (allowing_of k.unique_addresses k.accepts c).allowed);
  mac = bound_mac k.address_claims k.mac_claims c;
}

abbrev pub participants_of : Claimed → List IsolationCandidate → List IsolationParticipant
participants_of k [] = []
participants_of k (c ∷ cs) = participant_of k c ∷ participants_of k cs

-- The notes of the last loop.
abbrev pub note_allowing : IsolationCandidate → Allowing → Notes → Notes
note_allowing c a n = note c.source a.problems (record n { rejected = n.rejected ++ a.unaccepted })

unfoldable pub notes_of : Claimed → List IsolationCandidate → Notes → Notes
unfolding allowing_of
notes_of k [] n = n
notes_of k (c ∷ cs) n =
    notes_of k cs (note_allowing c (allowing_of k.unique_addresses k.accepts c) n)

abbrev pub participant_before : IsolationParticipant → IsolationParticipant → Bool
participant_before a b = in_order (a.ipv4_address, a.container_id) (b.ipv4_address, b.container_id)

abbrev pub sorted : List String → List String
sorted texts = dedup str_eq (sort_by str_before texts)

abbrev pub no_entries : {A : Type 0} → List A → Bool
no_entries [] = true
no_entries (x ∷ xs) = false

abbrev pub reason_of : Bool → Bool → String
reason_of eligible no_participants =
    if eligible
    then "isolation.policy_complete"
    else (if no_participants then "isolation.no_participants" else "isolation.policy_incomplete")

abbrev pub message_of : Bool → Bool → String
message_of eligible no_participants =
    if eligible
    then "Every current bridge participant has a unique valid isolation identity and resolved allow-list"
    else (if no_participants
        then "No running IPv4 participants are attached to the enrolled bridge"
        else "The isolation policy is incomplete; enforce mode must degrade to audit")

-- What the loops over the candidates that take part find, and their notes before the last loop.
unfoldable pub claimed_by : List IsolationCandidate → Claimed
unfolding identify mac_claims_of unique_addresses_of accepts_of
claimed_by candidates =
    let unique = unique_addresses_of candidates (identify 0 candidates ([], [])).0 in
    record {
      address_claims = count_addresses candidates [];
      mac_claims = mac_claims_of candidates [];
      unique_addresses = unique;
      accepts = (accepts_of unique candidates ([], record { issues = []; rejected = [] })).0;
    }

unfoldable pub claim_issues : List IsolationCandidate → List String
unfolding identify mac_claims_of
claim_issues candidates =
    (identify 0 candidates ([], [])).1
    ++ (duplicate_identities (identify 0 candidates ([], [])).0
        ++ (shared_addresses (count_addresses candidates [])
            ++ shared_macs (mac_claims_of candidates [])))

unfoldable pub all_notes : List IsolationCandidate → List String → Notes
unfolding claimed_by accepts_of notes_of claim_issues
all_notes candidates rejected =
    notes_of (claimed_by candidates) candidates
      (accepts_of (claimed_by candidates).unique_addresses candidates
        ([], record { issues = claim_issues candidates; rejected = rejected })).1

unfoldable pub policy_of :
    String → String → String → List IsolationCandidate → List String → ℕ → IsolationPolicy
unfolding claimed_by all_notes bound_mac allowing_of
policy_of network bridge subnet candidates screened now =
    let notes = all_notes candidates screened in
    let participants =
      sort_by participant_before (participants_of (claimed_by candidates) candidates) in
    let issues = sorted notes.issues in
    let eligible = not (no_entries participants) && no_entries issues in
    record {
      schema_version = 1;
      generated_at_unix_ms = now;
      network = network;
      bridge = bridge;
      subnet = subnet;
      eligible_for_enforcement = eligible;
      reason_code = reason_of eligible (no_entries participants);
      safe_message = message_of eligible (no_entries participants);
      issues = issues;
      participants = participants;
      ipv6_subnet = none;
      bound_range = none;
      gateway_address = none;
      rejected = sorted notes.rejected;
    }

unfoldable pub build_policy :
    String → String → String → List IsolationCandidate → ℕ → IsolationPolicy
unfolding policy_of screen_kubernetes_candidates
build_policy network bridge subnet candidates now =
    let (kept, rejected) = screen_kubernetes_candidates candidates in
    policy_of network bridge subnet kept rejected now
