-- ===== src/Isolation/Pods.antt =====
-- The pods that the screening of src/isolation.rs lets in.
use egressy.Base.{
  ℕ, ◌≡◌, refl, ◌≤◌, ◌+◌, Bool, true, false, not, ◌||◌, Option, none, some, List, [], ◌∷◌, ◌++◌,
  length, keep, All, All-map, All-every, keep-All, append-All, Map, Key, lookup, lookup-insert, Set,
  has, arith, if◌then◌else◌, sort_by, keep-sort_by, sort_by-All, nat_key, string_key,
}
use egressy.Base.Results.{some_injective}
use egressy.Isolation.{IsolationCandidate, is_docker, mac_of}
use egressy.Isolation.Screening.{
  values_of, address_of, identity_of, has_some, put_some, valid_some, pod_problem, gives_way,
  containers_of, pods_of, remaining_of, alone, duplicated, screen, screen_kubernetes_candidates,
  candidate_before, claims, claim_some, claimed_twice, count_claims,
}
use egressy.Isolation.Containers.{keep-append}

module _ {A : Type 0} ⦃k : Key A⦄ (f : IsolationCandidate → Option A) where
  abbrev pub is_value : A → Option A → Bool
  is_value a none = false
  is_value a (some b) = k.beq b a

  -- A candidate that claims this value.
  abbrev pub claims_value : A → IsolationCandidate → Bool
  claims_value a c = is_value a (f c)

  claims-claim_some :
      (o : Option A) (a : A) (m : Map A ℕ)
      → claims a (claim_some o m) ≡ (if is_value a o then 1 else 0) + claims a m
  claims-claim_some none a m = omega arith
  claims-claim_some (some b) a m =
      ground (arith, lookup-insert b a (claims b m + 1) m, k.beq_iff b a)

  claims-count_claims :
      (cs : List IsolationCandidate) (m : Map A ℕ) (a : A)
      → claims a (count_claims f cs m) ≡ length (keep (claims_value a) cs) + claims a m
  claims-count_claims [] m a = omega arith
  claims-count_claims (c ∷ cs) m a = omega (
    arith,
    claims-count_claims cs (claim_some (f c) m) a,
    claims-claim_some (f c) a m,
    counted (is_value a (f c)) (keep (claims_value a) cs) c,
  )
    where
      counted :
          (b : Bool) (xs : List IsolationCandidate) (x : IsolationCandidate)
          → length (if b then x ∷ xs else xs) ≡ (if b then 1 else 0) + length xs
      counted true xs x = omega arith
      counted false xs x = omega arith

  has-put_some : (o : Option A) (a : A) (s : Set A) → has a (put_some o s) ≡ is_value a o || has a s
  has-put_some none a s = refl
  has-put_some (some b) a s = ground (arith, lookup-insert b a tt s)

  -- A value that is not among those claimed is claimed by none.
  values_of_none :
      (cs : List IsolationCandidate) (a : A)
      → has a (values_of f cs) ≡ false
      → length (keep (claims_value a) cs) ≡ 0
  values_of_none [] a h = refl
  values_of_none (c ∷ cs) a h =
      ground (arith, has-put_some (f c) a (values_of f cs), h, values_of_none cs a)

  -- At most one of the candidates claims what this one claims.
  abbrev pub Alone : List IsolationCandidate → IsolationCandidate → Type 0
  Alone cs pod = (a : A) → f pod ≡ some a → length (keep (claims_value a) cs) ≤ 1

  alone_lem :
      (containers remaining stay : List IsolationCandidate) (pod : IsolationCandidate)
      → has_some (f pod) (values_of f containers) ≡ false
      → claimed_twice (f pod) (count_claims f remaining []) ≡ false
      → ((a : A) → length (keep (claims_value a) stay) ≤ length (keep (claims_value a) remaining))
      → Alone (sort_by candidate_before (containers ++ stay)) pod
  unfolding lookup
  alone_lem containers remaining stay pod apart once fewer a e = omega (
    arith,
    keep-sort_by candidate_before (claims_value a) (containers ++ stay),
    keep-append (claims_value a) containers stay,
    values_of_none containers a (at_value (f pod) e apart),
    fewer a,
    claims-count_claims remaining [] a,
    at_most (f pod) e once,
  )
    where
      at_value :
          (o : Option A)
          → o ≡ some a
          → has_some o (values_of f containers) ≡ false
          → has a (values_of f containers) ≡ false
      at_value none e h = absurd (ground (arith, e))
      at_value (some b) e h = rw (← some_injective b a e) h

      at_most :
          (o : Option A)
          → o ≡ some a
          → claimed_twice o (count_claims f remaining []) ≡ false
          → claims a (count_claims f remaining []) ≤ 1
      at_most none e h = absurd (ground (arith, e))
      at_most (some b) e h = rw (← some_injective b a e) (ground (arith, h))

-- What is demanded of a candidate among those that take part.
abbrev pub MayTakePart : List IsolationCandidate → IsolationCandidate → Type 0
MayTakePart cs c =
    is_docker c ≡ false
    → (valid_some c.isolation_id ≡ true)
      × Alone address_of cs c
      × Alone mac_of cs c
      × Alone identity_of cs c

module _ (containers pods : List IsolationCandidate) where
  abbrev left : List IsolationCandidate
  left = remaining_of containers pods

  abbrev result : List IsolationCandidate
  result = sort_by candidate_before (containers ++ alone left)

  fewer :
      (p : IsolationCandidate → Bool) (q : IsolationCandidate → Bool) (xs : List IsolationCandidate)
      → length (keep p (keep q xs)) ≤ length (keep p xs)
  fewer p q [] = omega arith
  fewer p q (x ∷ xs) = ground (arith, fewer p q xs)

  stays :
      (c : IsolationCandidate)
      → gives_way containers c ≡ false
      → duplicated left c ≡ false
      → MayTakePart result c
  unfolding alone gives_way pod_problem duplicated
  stays c way single is_pod =
      let stay = keep (λ pod. not (duplicated left pod)) left in
      (
        ground (arith, way),
        alone_lem address_of containers left stay c (ground (arith, way)) (ground (arith, single))
            (λ a. fewer (claims_value address_of a) (λ pod. not (duplicated left pod)) left),
        alone_lem mac_of containers left stay c (ground (arith, way)) (ground (arith, single))
            (λ a. fewer (claims_value mac_of a) (λ pod. not (duplicated left pod)) left),
        alone_lem identity_of containers left stay c (ground (arith, way)) (ground (arith, single))
            (λ a. fewer (claims_value identity_of a) (λ pod. not (duplicated left pod)) left),
      )

screened :
    (containers pods : List IsolationCandidate)
    → All (λ c. is_docker c ≡ true) containers
    → All (MayTakePart (screen containers pods).0) (screen containers pods).0
unfolding screen alone remaining_of
screened containers [] are =
    All-map (λ c is_container is_pod. absurd (ground (arith, is_container, is_pod))) containers are
screened containers (pod ∷ pods) are =
    let may = MayTakePart (result containers (pod ∷ pods)) in
    sort_by-All may candidate_before (containers ++ alone (left containers (pod ∷ pods))) (
      append-All may containers (alone (left containers (pod ∷ pods)))
        (All-map (λ c is_container is_pod. absurd (ground (arith, is_container, is_pod))) containers
          are)
        (stayed (pod ∷ pods)))
  where
    stayed :
        (all : List IsolationCandidate)
        → All (MayTakePart (result containers all)) (alone (left containers all))
    stayed all =
        keep-All (λ c. gives_way containers c ≡ false) (MayTakePart (result containers all))
          (λ c. not (duplicated (left containers all) c)) (left containers all)
          (λ c way kept. stays containers all c way (ground (arith, kept)))
          (keep-All (λ c. Unit) (λ c. gives_way containers c ≡ false)
            (λ c. not (gives_way containers c)) all (λ c u kept. ground (arith, kept))
            (All-every (λ c. Unit) all (λ c. tt)))

-- A pod that is let in has a valid identity, and no other candidate that takes part, container or
-- pod, claims its address, its MAC or its identity.
pub screen_kubernetes_candidates_pods :
    (cs : List IsolationCandidate)
    → All (MayTakePart (screen_kubernetes_candidates cs).0) (screen_kubernetes_candidates cs).0
unfolding screen_kubernetes_candidates
screen_kubernetes_candidates_pods cs = screened (containers_of cs) (pods_of cs) (
    keep-All (λ c. Unit) (λ c. is_docker c ≡ true) is_docker cs (λ c u e. e)
      (All-every (λ c. Unit) cs (λ c. tt)))
