-- ===== src/Isolation/Containers.antt =====
-- What the screening of pods in src/isolation.rs leaves alone, and what it lets in.
use egressy.Base.{
  ◌≡◌, refl, ◌+◌, Bool, not, ◌&&◌, List, [], ◌∷◌, ◌++◌, length, keep, arith, keep-sort_by, nat_key,
  string_key,
}
use egressy.Isolation.{IsolationCandidate, is_docker}
use egressy.Isolation.Screening.{
  gives_way, containers_of, pods_of, remaining_of, alone, duplicated, screen,
  screen_kubernetes_candidates, candidate_before,
}

pub keep-append :
    {A : Type 0} (p : A → Bool) (xs ys : List A)
    → length (keep p (xs ++ ys)) ≡ length (keep p xs) + length (keep p ys)
keep-append p [] ys = omega arith
keep-append p (x ∷ xs) ys = ground (arith, keep-append p xs ys)

-- A container of some kind.
abbrev pub container : (IsolationCandidate → Bool) → IsolationCandidate → Bool
container p c = is_docker c && p c

no_container :
    (p q : IsolationCandidate → Bool) (cs : List IsolationCandidate)
    → length (keep (container p) cs) ≡ 0
    → length (keep (container p) (keep q cs)) ≡ 0
no_container p q [] h = refl
no_container p q (c ∷ cs) h = ground (arith, h, no_container p q cs)

pods_of_none :
    (p : IsolationCandidate → Bool) (cs : List IsolationCandidate)
    → length (keep (container p) (pods_of cs)) ≡ 0
pods_of_none p [] = refl
pods_of_none p (c ∷ cs) = ground (arith, pods_of_none p cs)

containers_of_all :
    (p : IsolationCandidate → Bool) (cs : List IsolationCandidate)
    → length (keep (container p) (containers_of cs)) ≡ length (keep (container p) cs)
containers_of_all p [] = refl
containers_of_all p (c ∷ cs) = ground (arith, containers_of_all p cs)

-- The screening neither drops a container nor adds one: of every kind, as many are left as came.
pub screen_kubernetes_candidates_containers :
    (p : IsolationCandidate → Bool) (cs : List IsolationCandidate)
    → length (keep (container p) (screen_kubernetes_candidates cs).0)
      ≡ length (keep (container p) cs)
unfolding screen_kubernetes_candidates screen alone remaining_of
screen_kubernetes_candidates_containers p cs = screened (pods_of cs) (pods_of_none p cs)
  where
    screened :
        (pods : List IsolationCandidate)
        → length (keep (container p) pods) ≡ 0
        → length (keep (container p) (screen (containers_of cs) pods).0)
          ≡ length (keep (container p) cs)
    screened [] h = containers_of_all p cs
    screened (pod ∷ pods) h =
        let remaining = remaining_of (containers_of cs) (pod ∷ pods) in
        omega (
          arith,
          keep-sort_by candidate_before (container p) (containers_of cs ++ alone remaining),
          keep-append (container p) (containers_of cs) (alone remaining),
          containers_of_all p cs,
          no_container p (λ c. not (duplicated remaining c)) remaining
              (no_container p (λ c. not (gives_way (containers_of cs) c)) (pod ∷ pods) h),
        )
