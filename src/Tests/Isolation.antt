-- ===== src/Tests/Isolation.antt =====
-- Candidates of src/isolation.rs: two containers that may reach each other, and a pod.
use egressy.Base.{
  ℕ, ◌≡◌, refl, ◌≤◌, String, true, none, some, List, [], ◌∷◌, length, keep, All, sort_by, dedup,
  lookup, insert, split, trim, split_once, parse_unsigned,
}
use egressy.Base.Results.{ok, collect}
use egressy.Isolation.{
  IsolationCandidate, docker, kubernetes, AllowSpec, tcp, parse_entry, parse_allow_list,
  valid_identity, normalize_mac,
}
use egressy.Isolation.Screening.{screen_kubernetes_candidates}
use egressy.Isolation.Building.{build_policy, claimed_by, participant_of}
use egressy.Isolation.Binding.{carries_mac, build_policy_one_holder}
use egressy.Isolation.Complete.{IsIdentified, has_identity, has_address, build_policy_eligible}
use egressy.Isolation.Allowances.{IsOpening, build_policy_allowances}
use egressy.Isolation.Consent.{is_accepted, participant_of_pod}
use egressy.Isolation.Texts.{IsAllowSpec, parse_allow_list-IsAllowSpec}
use egressy.Isolation.Containers.{container, screen_kubernetes_candidates_containers}
use egressy.Isolation.Pods.{MayTakePart, screen_kubernetes_candidates_pods}

abbrev web : IsolationCandidate
web = record {
  container_id = "c1";
  name = "web";
  ipv4_address = 2887647490;
  isolation_id = some "web";
  allow = some "db:5432/tcp";
  mac = some "02:42:AC:1E:00:02";
  source = docker;
  accept = none;
}

abbrev db : IsolationCandidate
db = record {
  container_id = "c2";
  name = "db";
  ipv4_address = 2887647491;
  isolation_id = some "db";
  allow = none;
  mac = some "02:42:ac:1e:00:03";
  source = docker;
  accept = some "job";
}

abbrev job : IsolationCandidate
job = record {
  container_id = "p1";
  name = "job";
  ipv4_address = 2887647492;
  isolation_id = some "job";
  allow = some "db:5432/tcp, web:80/tcp";
  mac = some "02:42:ac:1e:00:04";
  source = kubernetes;
  accept = none;
}

abbrev all : List IsolationCandidate
all = job ∷ web ∷ db ∷ []

abbrev to_db : AllowSpec
to_db = record { destination_id = "db"; port = 5432; protocol = tcp }

build_policy_one_holder_example :
    length (
      keep
        (carries_mac "02:42:ac:1e:00:02")
        (build_policy "vpn" "br" "172.30.0.0/24" all 7).participants)
    ≤ 1
build_policy_one_holder_example =
    build_policy_one_holder "vpn" "br" "172.30.0.0/24" all 7 "02:42:ac:1e:00:02"

complete :
    (build_policy "vpn" "br" "172.30.0.0/24" (web ∷ db ∷ []) 7).eligible_for_enforcement ≡ true
unfolding build_policy sort_by participant_of dedup lookup insert normalize_mac split trim
    parse_allow_list collect parse_entry split_once parse_unsigned
complete = refl

build_policy_eligible_example :
    All
      (λ p. IsIdentified p.isolation_id)
      (build_policy "vpn" "br" "172.30.0.0/24" (web ∷ db ∷ []) 7).participants
    × ((i : String)
        → length (
            keep
              (has_identity i)
              (build_policy "vpn" "br" "172.30.0.0/24" (web ∷ db ∷ []) 7).participants)
          ≤ 1)
    × ((a : ℕ)
        → length (
            keep
              (has_address a)
              (build_policy "vpn" "br" "172.30.0.0/24" (web ∷ db ∷ []) 7).participants)
          ≤ 1)
build_policy_eligible_example =
    build_policy_eligible "vpn" "br" "172.30.0.0/24" (web ∷ db ∷ []) 7 complete

build_policy_allowances_example :
    All
      (λ p. All (IsOpening (build_policy "vpn" "br" "172.30.0.0/24" all 7)) p.allowances)
      (build_policy "vpn" "br" "172.30.0.0/24" all 7).participants
build_policy_allowances_example = build_policy_allowances "vpn" "br" "172.30.0.0/24" all 7

participant_of_pod_example :
    All
      (λ a. is_accepted all a.destination_id (some "job") ≡ true)
      (participant_of (claimed_by all) job).allowances
participant_of_pod_example = participant_of_pod all job refl

list_read : parse_allow_list " db:5432/tcp" ≡ ok (to_db ∷ [])
unfolding parse_allow_list trim collect split parse_entry split_once valid_identity parse_unsigned
list_read = refl

parse_allow_list-IsAllowSpec_example : All IsAllowSpec (to_db ∷ [])
parse_allow_list-IsAllowSpec_example =
    parse_allow_list-IsAllowSpec " db:5432/tcp" (to_db ∷ []) list_read

screen_kubernetes_candidates_containers_example :
    length (keep (container (λ c. true)) (screen_kubernetes_candidates all).0)
    ≡ length (keep (container (λ c. true)) all)
screen_kubernetes_candidates_containers_example =
    screen_kubernetes_candidates_containers (λ c. true) all

screen_kubernetes_candidates_pods_example :
    All (MayTakePart (screen_kubernetes_candidates all).0) (screen_kubernetes_candidates all).0
screen_kubernetes_candidates_pods_example = screen_kubernetes_candidates_pods all
