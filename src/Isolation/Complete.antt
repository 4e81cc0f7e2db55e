-- ===== src/Isolation/Complete.antt =====
-- What it means that a policy of src/isolation.rs is eligible for enforcement.
use egressy.Base.{
  ℕ, suc, ◌≡◌, refl, ◌≤◌, ◌+◌, inl, inr, String, Bool, true, false, Option, none, some, List, [],
  ◌∷◌, ◌++◌, append, length, keep, All, Map, Set, lookup, lookup-insert, ◌==◌, str_eq, eq_iff,
  arith, Bool-cases, filter_some, if◌then◌else◌, is_some, keep-sort_by, sort_by-All, sort_by, dedup,
  place_sorted, nat_key, string_key, insert, str_before, length-append,
}
use egressy.Isolation.{
  IsolationCandidate, CandidateSource, docker, kubernetes, IsolationParticipant, valid_identity,
}
use egressy.Isolation.Screening.{claims, count_addresses, screen_kubernetes_candidates}
use egressy.Isolation.Policy.{
  push, indexes_of, identify_one, identify, duplicate_identities, shared_addresses, shared_macs,
  mac_claims_of, Notes, note, accept_one, accepts_of, Allowing, accept_entries, bad_accepts,
  accepted_of,
}
use egressy.Isolation.Building.{
  Claimed, claimed_by, participant_of, participants_of, participant_before, sorted, no_entries,
  note_allowing, notes_of, claim_issues, all_notes, policy_of, build_policy, allowing_of,
}
use egressy.Isolation.Binding.{at, claims-count_addresses}

no_entries-append :
    {A : Type 0} (xs ys : List A)
    → no_entries (xs ++ ys) ≡ true
    → (no_entries xs ≡ true) × (no_entries ys ≡ true)
no_entries-append [] ys h = (refl, h)
no_entries-append (x ∷ xs) ys h = absurd (ground arith)

dedup_some : (x : String) (xs : List String) → no_entries (dedup str_eq (x ∷ xs)) ≡ true → ⊥
unfolding dedup
dedup_some x [] h = ground arith
dedup_some x (y ∷ ys) h = ground (arith, dedup_some y ys)

placed_some :
    (x : String) (xs : List String)
    → no_entries (dedup str_eq (place_sorted str_before x xs)) ≡ true
    → ⊥
unfolding place_sorted
placed_some x [] h = dedup_some x [] h
placed_some x (y ∷ ys) h = either (str_before y x) h
  where
    either :
        (b : Bool)
        → no_entries (dedup str_eq (if b then y ∷ place_sorted str_before x ys else x ∷ y ∷ ys))
          ≡ true
        → ⊥
    either true h = dedup_some y (place_sorted str_before x ys) h
    either false h = dedup_some x (y ∷ ys) h

sorted_none : (texts : List String) → no_entries (sorted texts) ≡ true → no_entries texts ≡ true
unfolding sort_by
sorted_none [] h = refl
sorted_none (t ∷ ts) h = absurd (placed_some t (sort_by str_before ts) h)

note-issues :
    (s : CandidateSource) (problems : List String) (n : Notes)
    → no_entries (note s problems n).issues ≡ true
    → no_entries n.issues ≡ true
note-issues docker problems n h = (no_entries-append n.issues problems h).0
note-issues kubernetes problems n h = h

notes_of-issues :
    (k : Claimed) (cs : List IsolationCandidate) (n : Notes)
    → no_entries (notes_of k cs n).issues ≡ true
    → no_entries n.issues ≡ true
unfolding notes_of
notes_of-issues k [] n h = h
notes_of-issues k (c ∷ cs) n h =
    let a : Allowing = allowing_of k.unique_addresses k.accepts c in
    note-issues c.source a.problems (record n { rejected = n.rejected ++ a.unaccepted })
      (notes_of-issues k cs (note_allowing c a n) h)

accept_one-issues :
    (unique : Map String ℕ) (c : IsolationCandidate) (s : Map String (Set String) × Notes)
    → no_entries (accept_one unique c s).1.issues ≡ true
    → no_entries s.1.issues ≡ true
accept_one-issues unique c (accepts, n) = at_identity c.isolation_id
  where
    at_unique :
        (s t : Map String (Set String) × Notes) (b : Bool)
        → (no_entries s.1.issues ≡ true → no_entries n.issues ≡ true)
        → (no_entries t.1.issues ≡ true → no_entries n.issues ≡ true)
        → no_entries (if◌then◌else◌ {A = Map String (Set String) × Notes} b s t).1.issues ≡ true
        → no_entries n.issues ≡ true
    at_unique s t true f g h = f h
    at_unique s t false f g h = g h

    at_identity :
        (o : Option String)
        → no_entries (accept_one unique (record c { isolation_id = o }) (accepts, n)).1.issues
          ≡ true
        → no_entries n.issues ≡ true
    at_identity none h = h
    at_identity (some identity) h =
        at_unique
          (
            insert identity (accepted_of (accept_entries c.accept)) accepts,
            note c.source (bad_accepts c.name (accept_entries c.accept)) n,
          )
          (accepts, n) (is_some (lookup identity unique))
          (note-issues c.source (bad_accepts c.name (accept_entries c.accept)) n) (λ e. e) h

accepts_of-issues :
    (unique : Map String ℕ) (cs : List IsolationCandidate) (s : Map String (Set String) × Notes)
    → no_entries (accepts_of unique cs s).1.issues ≡ true
    → no_entries s.1.issues ≡ true
unfolding accepts_of
accepts_of-issues unique [] s h = h
accepts_of-issues unique (c ∷ cs) s h =
    accept_one-issues unique c s (accepts_of-issues unique cs (accept_one unique c s) h)

-- The notes of the claims stay to the end.
all_notes-claim_issues :
    (cs : List IsolationCandidate) (rejected : List String)
    → no_entries (all_notes cs rejected).issues ≡ true
    → no_entries (claim_issues cs) ≡ true
unfolding all_notes
all_notes-claim_issues cs rejected h =
    accepts_of-issues (claimed_by cs).unique_addresses cs
      ([], record { issues = claim_issues cs; rejected = rejected })
      (notes_of-issues (claimed_by cs) cs
        (accepts_of (claimed_by cs).unique_addresses cs
          ([], record { issues = claim_issues cs; rejected = rejected })).1
        h)

claims-shared_addresses :
    (m : Map ℕ ℕ) (a : ℕ) → no_entries (shared_addresses m) ≡ true → claims a m ≤ 1
unfolding lookup
claims-shared_addresses [] a h = omega arith
claims-shared_addresses ((b, n) ∷ m) a h = ground (arith, claims-shared_addresses m a)

indexes_of-duplicate_identities :
    (m : Map String (List ℕ)) (i : String)
    → no_entries (duplicate_identities m) ≡ true
    → length (indexes_of i m) ≤ 1
unfolding lookup
indexes_of-duplicate_identities [] i h = omega arith
indexes_of-duplicate_identities ((j, l) ∷ m) i h =
    ground (arith, indexes_of-duplicate_identities m i, eq_iff j i)

abbrev pub is_identified : String → Option String → Bool
is_identified i none = false
is_identified i (some j) = str_eq j i

abbrev pub identified : String → IsolationCandidate → Bool
identified i c = is_identified i c.isolation_id

abbrev pub IsIdentified : Option String → Type 0
IsIdentified o = (i : String) × (o ≡ some i) × (valid_identity i ≡ true)

-- One candidate of the first loop: no issue is forgotten, and with none its identity is noted.
identify_one_lem :
    (o : Option String) (name : String) (index : ℕ) (s : Map String (List ℕ) × List String)
    → no_entries (identify_one o name index s).1 ≡ true
    → (no_entries s.1 ≡ true)
      × IsIdentified o
      × ((i : String)
          → length (indexes_of i (identify_one o name index s).0)
            ≡ (if is_identified i o then 1 else 0) + length (indexes_of i s.0))
identify_one_lem none name index (m, issues) h = absurd (
    ground (
      arith,
      (no_entries-append issues (append name " is attached without egressy.isolation-id" ∷ []) h).1,
    ))
identify_one_lem (some identity) name index (m, issues) h =
    elim (Bool-cases (valid_identity identity)) [
      | inl e ↦ (
        rw e at h,
        (identity, refl, e),
        rw e (λ i. ground (
          arith,
          lookup-insert identity i (push index (indexes_of identity m)) m,
          eq_iff identity i,
          length-append {0} (indexes_of identity m) (index ∷ []),
        )),
      )
      | inr e ↦ absurd (
          ground (
            arith,
            e,
            h,
            no_entries-append issues (append name " has an invalid egressy.isolation-id" ∷ []),
          ))
    ]

-- Counts of a head and a tail, put together.
keep_if :
    (p : IsolationCandidate → Bool) (c : IsolationCandidate) (cs : List IsolationCandidate)
    → length (keep p (c ∷ cs)) ≡ (if p c then 1 else 0) + length (keep p cs)
keep_if p c cs = ground arith

-- With no issue of the first loop every identity is valid, and each is noted as often as it stands.
identify_lem :
    (cs : List IsolationCandidate) (index : ℕ) (s : Map String (List ℕ) × List String)
    → no_entries (identify index cs s).1 ≡ true
    → (no_entries s.1 ≡ true)
      × All (λ c. IsIdentified c.isolation_id) cs
      × ((i : String)
          → length (indexes_of i (identify index cs s).0)
            ≡ length (keep (identified i) cs) + length (indexes_of i s.0))
unfolding identify
identify_lem [] index s h = (h, tt, λ i. omega arith)
identify_lem (c ∷ cs) index s h =
    let later = identify_lem cs (suc index) (identify_one c.isolation_id c.name index s) h in
    let here = identify_one_lem c.isolation_id c.name index s later.0 in
    (
      here.0,
      (here.1, later.1),
      λ i. omega (arith, later.2 i, here.2 i, keep_if (identified i) c cs),
    )

record Sound (cs : List IsolationCandidate) : Type 0 where
  valid : All (λ c. IsIdentified c.isolation_id) cs
  one_identity : (i : String) → length (keep (identified i) cs) ≤ 1
  one_address : (a : ℕ) → length (keep (at a) cs) ≤ 1

-- Candidates that claim nothing twice.
claim_issues-Sound : (cs : List IsolationCandidate) → no_entries (claim_issues cs) ≡ true → Sound cs
unfolding claim_issues
claim_issues-Sound cs h =
    let known =
      no_entries-append (identify 0 cs ([], [])).1
        (duplicate_identities (identify 0 cs ([], [])).0
          ++ (shared_addresses (count_addresses cs []) ++ shared_macs (mac_claims_of cs [])))
        h in
    let twice =
      no_entries-append (duplicate_identities (identify 0 cs ([], [])).0)
        (shared_addresses (count_addresses cs []) ++ shared_macs (mac_claims_of cs [])) known.1 in
    let shared =
      no_entries-append (shared_addresses (count_addresses cs []))
        (shared_macs (mac_claims_of cs [])) twice.1 in
    let first = identify_lem cs 0 ([], []) known.0 in
    record {
      valid = first.1;
      one_identity = λ i.
          omega (
            arith,
            first.2 i,
            indexes_of-duplicate_identities (identify 0 cs ([], [])).0 i twice.0,
          );
      one_address = λ a. omega (
        arith,
        claims-count_addresses cs [] a,
        claims-shared_addresses (count_addresses cs []) a shared.0,
      );
    }

abbrev pub has_identity : String → IsolationParticipant → Bool
has_identity i p = is_identified i p.isolation_id

abbrev pub has_address : ℕ → IsolationParticipant → Bool
has_address a p = p.ipv4_address == a

-- A participant keeps its candidate's identity where that is valid, and its address.
identities_kept :
    (k : Claimed) (cs : List IsolationCandidate) (i : String)
    → length (keep (has_identity i) (participants_of k cs)) ≤ length (keep (identified i) cs)
unfolding participant_of
identities_kept k [] i = omega arith
identities_kept k (c ∷ cs) i = at_identity c.isolation_id (identities_kept k cs i)
  where
    at_identity :
        (o : Option String)
        → length (keep (has_identity i) (participants_of k cs)) ≤ length (keep (identified i) cs)
        → length (
            keep
              (has_identity i)
              (participant_of k (record c { isolation_id = o }) ∷ participants_of k cs))
          ≤ length (keep (identified i) (record c { isolation_id = o } ∷ cs))
    at_identity none h = h
    at_identity (some j) h = ground arith

addresses_kept :
    (k : Claimed) (cs : List IsolationCandidate) (a : ℕ)
    → length (keep (has_address a) (participants_of k cs)) ≡ length (keep (at a) cs)
unfolding participant_of
addresses_kept k [] a = refl
addresses_kept k (c ∷ cs) a = ground (arith, addresses_kept k cs a)

participants_of-IsIdentified :
    (k : Claimed) (cs : List IsolationCandidate)
    → All (λ c. IsIdentified c.isolation_id) cs
    → All (λ p. IsIdentified p.isolation_id) (participants_of k cs)
unfolding participant_of
participants_of-IsIdentified k [] h = tt
participants_of-IsIdentified k (c ∷ cs) h =
    (kept c.isolation_id h.0, participants_of-IsIdentified k cs h.1)
  where
    kept : (o : Option String) → IsIdentified o → IsIdentified (filter_some valid_identity o)
    kept none (i, e, v) = absurd (ground (arith, e))
    kept (some j) (i, e, v) = (i, ground (arith, e, v), v)

-- A policy that is eligible for enforcement has participants only with a valid identity; no two of
-- them have the same identity, and no two the same address.
pub build_policy_eligible :
    (network bridge subnet : String) (candidates : List IsolationCandidate) (now : ℕ)
    → (build_policy network bridge subnet candidates now).eligible_for_enforcement ≡ true
    → All
        (λ p. IsIdentified p.isolation_id)
        (build_policy network bridge subnet candidates now).participants
      × ((i : String)
          → length (
              keep
                (has_identity i)
                (build_policy network bridge subnet candidates now).participants)
            ≤ 1)
      × ((a : ℕ)
          → length (
              keep (has_address a) (build_policy network bridge subnet candidates now).participants)
            ≤ 1)
unfolding build_policy policy_of
build_policy_eligible network bridge subnet candidates now h =
    let (cs, screened) = screen_kubernetes_candidates candidates in
    let k : Claimed = claimed_by cs in
    let sound : Sound cs = claim_issues-Sound cs (
      all_notes-claim_issues cs screened
        (sorted_none (all_notes cs screened).issues (ground (arith, h)))) in
    (
      sort_by-All (λ p. IsIdentified p.isolation_id) participant_before (participants_of k cs)
          (participants_of-IsIdentified k cs sound.valid),
      λ i. omega (
        arith,
        keep-sort_by participant_before (has_identity i) (participants_of k cs),
        identities_kept k cs i,
        sound.one_identity i,
      ),
      λ a. omega (
        arith,
        keep-sort_by participant_before (has_address a) (participants_of k cs),
        addresses_kept k cs a,
        sound.one_address a,
      ),
    )
