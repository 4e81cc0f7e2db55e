-- ===== src/Isolation/Screening.antt =====
-- src/isolation.rs: which pods take part at all. A pod that has no identity, or claims what a
-- container or another pod claims, is left out.
use egressy.Base.{
  ℕ, ◌+◌, String, Bool, false, not, ◌&&◌, ◌||◌, Option, none, some, List, [], ◌∷◌, ◌++◌, concat,
  keep, ltb, ◌==◌, if◌then◌else◌, is_some, Key, Map, lookup, insert, Set, has, put, str_before,
  sort_by, nat_key, string_key,
}
use egressy.Isolation.{IsolationCandidate, is_docker, mac_of, valid_identity}

abbrev pub put_some : {A : Type 0} ⦃k : Key A⦄ → Option A → Set A → Set A
put_some none s = s
put_some (some a) s = put a s

abbrev pub has_some : {A : Type 0} ⦃k : Key A⦄ → Option A → Set A → Bool
has_some none s = false
has_some (some a) s = has a s

-- What a candidate may claim: its address, its MAC, its identity.
abbrev pub address_of : IsolationCandidate → Option ℕ
address_of c = some c.ipv4_address

abbrev pub identity_of : IsolationCandidate → Option String
identity_of c = c.isolation_id

-- `docker_addresses`, `docker_macs` and `docker_identities`.
abbrev pub values_of :
    {A : Type 0} ⦃k : Key A⦄ → (IsolationCandidate → Option A) → List IsolationCandidate → Set A
values_of f [] = []
values_of f (c ∷ cs) = put_some (f c) (values_of f cs)

abbrev pub valid_some : Option String → Bool
valid_some none = false
valid_some (some identity) = valid_identity identity

-- Why a pod gives way to the containers, if it does.
unfoldable pub pod_problem : List IsolationCandidate → IsolationCandidate → Option String
pod_problem containers pod =
    if not (valid_some pod.isolation_id)
    then some "has no valid egressy.isolation-id"
    else (if has_some (address_of pod) (values_of address_of containers)
        then some "claims a Docker participant's address"
        else (if has_some (mac_of pod) (values_of mac_of containers)
            then some "claims a Docker participant's MAC"
            else (if has_some (identity_of pod) (values_of identity_of containers)
                then some "claims a Docker participant's isolation identity"
                else none)))

abbrev pub refusal : IsolationCandidate → Option String → List String
refusal pod none = []
refusal pod (some problem) = concat ("pod " ∷ pod.name ∷ " " ∷ problem ∷ []) ∷ []

unfoldable pub refusals : List IsolationCandidate → List IsolationCandidate → List String
unfolding pod_problem
refusals containers [] = []
refusals containers (pod ∷ pods) =
    refusal pod (pod_problem containers pod) ++ refusals containers pods

unfoldable pub gives_way : List IsolationCandidate → IsolationCandidate → Bool
unfolding pod_problem
gives_way containers pod = is_some (pod_problem containers pod)

abbrev pub claims : {A : Type 0} ⦃k : Key A⦄ → A → Map A ℕ → ℕ
claims a m = elim (lookup a m) [ none ↦ 0 | some n ↦ n ]

abbrev pub claim : {A : Type 0} ⦃k : Key A⦄ → A → Map A ℕ → Map A ℕ
claim a m = insert a (claims a m + 1) m

abbrev pub claim_some : {A : Type 0} ⦃k : Key A⦄ → Option A → Map A ℕ → Map A ℕ
claim_some none m = m
claim_some (some a) m = claim a m

abbrev pub count_addresses : List IsolationCandidate → Map ℕ ℕ → Map ℕ ℕ
count_addresses [] m = m
count_addresses (c ∷ cs) m = count_addresses cs (claim c.ipv4_address m)

-- The counts of the pods' addresses, MACs and identities.
abbrev pub count_claims :
    {A : Type 0} ⦃k : Key A⦄
    → (IsolationCandidate → Option A)
    → List IsolationCandidate
    → Map A ℕ
    → Map A ℕ
count_claims f [] m = m
count_claims f (c ∷ cs) m = count_claims f cs (claim_some (f c) m)

abbrev pub claimed_twice : {A : Type 0} ⦃k : Key A⦄ → Option A → Map A ℕ → Bool
claimed_twice none m = false
claimed_twice (some a) m = ltb 1 (claims a m)

-- Every pod's own claims are counted, so that the source's indexing finds its keys.
unfoldable pub duplicated : List IsolationCandidate → IsolationCandidate → Bool
duplicated pods pod =
    claimed_twice (address_of pod) (count_claims address_of pods [])
    || (claimed_twice (mac_of pod) (count_claims mac_of pods [])
        || claimed_twice (identity_of pod) (count_claims identity_of pods []))

abbrev pub shared_refusals : List IsolationCandidate → List String
shared_refusals [] = []
shared_refusals (pod ∷ pods) =
    concat
      ("pod " ∷ pod.name ∷ " shares an address, MAC or isolation identity with another pod" ∷ [])
    ∷ shared_refusals pods

-- The order by address, then by container.
abbrev pub in_order : ℕ × String → ℕ × String → Bool
in_order (a, s) (b, t) = ltb a b || ((a == b) && str_before s t)

abbrev pub candidate_before : IsolationCandidate → IsolationCandidate → Bool
candidate_before a b = in_order (a.ipv4_address, a.container_id) (b.ipv4_address, b.container_id)

abbrev pub containers_of : List IsolationCandidate → List IsolationCandidate
containers_of = keep is_docker

abbrev pub pods_of : List IsolationCandidate → List IsolationCandidate
pods_of = keep (λ c. not (is_docker c))

unfoldable pub remaining_of :
    List IsolationCandidate → List IsolationCandidate → List IsolationCandidate
unfolding gives_way
remaining_of containers = keep (λ pod. not (gives_way containers pod))

-- The pods that stay, of those that give way to no container.
unfoldable pub alone : List IsolationCandidate → List IsolationCandidate
unfolding duplicated
alone remaining = keep (λ pod. not (duplicated remaining pod)) remaining

unfoldable pub screen :
    List IsolationCandidate → List IsolationCandidate → List IsolationCandidate × List String
unfolding refusals duplicated remaining_of alone
screen containers [] = (containers, [])
screen containers (pod ∷ pods) =
    let remaining = remaining_of containers (pod ∷ pods) in
    (
      sort_by candidate_before (containers ++ alone remaining),
      refusals containers (pod ∷ pods) ++ shared_refusals (keep (duplicated remaining) remaining),
    )

unfoldable pub screen_kubernetes_candidates :
    List IsolationCandidate → List IsolationCandidate × List String
unfolding screen
screen_kubernetes_candidates candidates = screen (containers_of candidates) (pods_of candidates)
