-- ===== src/Tests/HostAgent.antt =====
-- A host of src/bin/egressy-isolation-agent.rs that refuses every script of nft, and a disk that
-- takes every file.
use egressy.Base.{
  ℕ, ◌≡◌, refl, ◌++◌, String, Bool, true, false, none, some, List, [], ◌∷◌, append, str_eq, ◌||◌,
  if◌then◌else◌, lookup, string_key,
}
use egressy.Base.Results.{ok, err}
use egressy.HostPolicy.{HostPolicy, route_replace_args}
use egressy.HostPolicy.Drift.{HostPolicyDrift, is_clean}
use egressy.Isolation.{IsolationPolicy, enforce}
use egressy.Isolation.Render.{Networks, render_bridge_policy}
use egressy.HostAgent.{
  Command, Host, Fault, not_fetched, counters_listing, success_of, run_nft, run_ip, execute,
  table_exists,
}
use egressy.HostAgent.Restore.{
  apply_host_policy, restore_table, restore_rule, run_each, observe, reconcile_with,
}
use egressy.HostAgent.Plan.{plan, run_plan, apply_host_policy-run_plan}
use egressy.HostAgent.KillSwitch.{kill_switch, apply_host_policy-kill_switch}
use egressy.HostAgent.Document.{
  Formats, parse_host_policy, fetch_policy, policy_is_stale, fetch_host_policy_bytes,
}
use egressy.HostAgent.Cache.{Disk, read_file, store_cached_policy, resolve_host_policy}
use egressy.HostAgent.Remembered.{store_cached_policy_atomic, resolve_host_policy_remembers}
use egressy.HostAgent.Observing.{OnlyRead, reconcile_with_lem}
use egressy.HostAgent.Loop.{
  World, AgentState, Sensed, Cli, tick, managed, reconcile_host_policy, isolation_tick,
  isolate_fetched, isolate, apply_policy, policy_fingerprint,
}
use egressy.HostAgent.Violations.{read_counters, counters_of, violation_changes}
use egressy.HostAgent.Ticks.{Fetches, tick_again}

abbrev bridge_policy : HostPolicy
bridge_policy = record {
  schema_version = 1;
  generated_at_unix_ms = 5;
  subnet = "172.30.0.0/24";
  bridge = "br-vpn";
  gateway_ip = "172.30.0.2";
  route_table = 200;
  rule_priority = 100;
  ipv6 = none;
}

abbrev nothing_there : HostPolicyDrift
nothing_there = record {
  rule_missing = true;
  subnet_route_missing = true;
  default_route_missing = true;
  nft_table_missing = true;
  nft_table_stale = false;
  ipv6_rule_missing = false;
  ipv6_routes_missing = false;
}

-- nft fails or works; all else works and prints nothing.
abbrev host_with : Bool → Host
host_with nft_works = record {
  answer = λ log c. some (record { success = nft_works || str_eq c.program "ip"; stdout = "" });
  rules_of_json = λ text. some [];
  routes_of_json = λ text. some [];
}

apply_host_policy-run_plan_example :
    apply_host_policy (host_with true) bridge_policy nothing_there []
    ≡ run_plan (host_with true) (plan bridge_policy nothing_there) []
apply_host_policy-run_plan_example =
    apply_host_policy-run_plan (host_with true) bridge_policy nothing_there []

all_applied : (apply_host_policy (host_with true) bridge_policy nothing_there []).0 ≡ ok tt
unfolding apply_host_policy restore_table run_nft restore_rule run_ip run_each route_replace_args
all_applied = refl

apply_host_policy-kill_switch_example :
    ((more : List Command) × ((apply_host_policy (host_with false) bridge_policy nothing_there []).1
        ≡ more ++ (kill_switch bridge_policy nothing_there ∷ [])))
    × ((e : Fault)
        → success_of ((host_with false).answer [] (kill_switch bridge_policy nothing_there)) ≡ err e
        → apply_host_policy (host_with false) bridge_policy nothing_there []
          ≡ (err e, kill_switch bridge_policy nothing_there ∷ []))
apply_host_policy-kill_switch_example =
    apply_host_policy-kill_switch (host_with false) bridge_policy nothing_there [] refl

abbrev disk : Disk
disk = record {
  can_read = λ path. true;
  can_write = λ path. true;
  can_rename = λ a b. true;
  torn = λ body. [];
  staging = λ path. append path ".tmp";
}

abbrev isolation : IsolationPolicy
isolation = record {
  schema_version = 1;
  generated_at_unix_ms = 9;
  network = "vpn";
  bridge = "br-vpn";
  subnet = "172.30.0.0/24";
  eligible_for_enforcement = false;
  reason_code = "isolation.no_participants";
  safe_message = "";
  issues = [];
  participants = [];
  ipv6_subnet = none;
  bound_range = none;
  gateway_address = none;
  rejected = [];
}

-- A later document has another time.
abbrev document : List ℕ → IsolationPolicy
document [] = isolation
document (b ∷ bytes) = record isolation { generated_at_unix_ms = 77 }

abbrev formats : Formats
formats = record {
  host_policy_of_json = λ body. some bridge_policy;
  isolation_policy_of_json = λ body. some (document body);
  is_net4 = λ text. true;
  is_net6 = λ text. true;
  is_ip4 = λ text. true;
  is_ip6 = λ text. true;
}

store_cached_policy_atomic_example :
    ((store_cached_policy disk "cache" (1 ∷ 2 ∷ []) []).0 ≡ ok tt
      → lookup "cache" (store_cached_policy disk "cache" (1 ∷ 2 ∷ []) []).1 ≡ some (1 ∷ 2 ∷ []))
    × ((e : Fault)
        → (store_cached_policy disk "cache" (1 ∷ 2 ∷ []) []).0 ≡ err e
        → lookup "cache" (store_cached_policy disk "cache" (1 ∷ 2 ∷ []) []).1
          ≡ lookup {K = String} {V = List ℕ} "cache" [])
store_cached_policy_atomic_example = store_cached_policy_atomic disk "cache" (1 ∷ 2 ∷ []) [] refl

parsed_back : parse_host_policy formats (1 ∷ 2 ∷ []) ≡ ok bridge_policy
unfolding parse_host_policy
parsed_back = refl

stored : (store_cached_policy disk "cache" (1 ∷ 2 ∷ []) []).0 ≡ ok tt
unfolding store_cached_policy read_file lookup
stored = refl

resolve_host_policy_remembers_example :
    resolve_host_policy disk formats
      (err not_fetched)
      (some "cache")
      (resolve_host_policy disk formats (ok (bridge_policy, 1 ∷ 2 ∷ [])) (some "cache") []).1
    ≡ (
      ok (bridge_policy, some not_fetched),
      (resolve_host_policy disk formats (ok (bridge_policy, 1 ∷ 2 ∷ [])) (some "cache") []).1,
    )
resolve_host_policy_remembers_example =
    resolve_host_policy_remembers disk "cache" (1 ∷ 2 ∷ []) [] disk formats bridge_policy
      not_fetched refl refl parsed_back stored

reconcile_with_lem_example :
    OnlyRead [] (observe (host_with true) some bridge_policy []).1
    × ((d : HostPolicyDrift)
        → (observe (host_with true) some bridge_policy []).0 ≡ ok d
        → reconcile_with (host_with true) some bridge_policy [] ≡ (
            if is_clean d
            then (ok tt, (observe (host_with true) some bridge_policy []).1)
            else apply_host_policy
                (host_with true)
                bridge_policy
                d
                (observe (host_with true) some bridge_policy []).1))
    × ((e : Fault)
        → (observe (host_with true) some bridge_policy []).0 ≡ err e
        → reconcile_with (host_with true) some bridge_policy []
          ≡ (err e, (observe (host_with true) some bridge_policy []).1))
reconcile_with_lem_example = reconcile_with_lem (host_with true) some bridge_policy []

abbrev networks : Networks ℕ ℕ
networks = record {
  parse = λ text. some 1;
  first_host = λ net. some 2;
  broadcast = λ net. 3;
  net_contains = λ net address. true;
  net_text = λ net. "172.30.0.0/24";
  parse6 = λ text. some 4;
  net6_text = λ net. "fd00::/64";
}

abbrev world : World ℕ ℕ String
world = record {
  host = host_with true;
  formats = formats;
  disk = disk;
  networks = networks;
  parse_ip6 = some;
  items_of_json = λ text. some [];
  to_json = λ p. p.subnet;
}

abbrev fresh : AgentState
fresh = record {
  last_policy_fingerprint = none;
  last_reported_counters = [];
  host_policy_failures = 0;
}

abbrev cli : Cli
cli = record {
  policy_url = "http://localhost/api/v2/isolation";
  mode = enforce;
  interval_seconds = 5;
  stale_seconds = 60;
  manage_host_policy = true;
  host_policy_url = none;
  host_policy_cache = none;
}

-- The gateway does not answer with the host's policy.
abbrev sensed : List ℕ → ℕ → Sensed
sensed bytes now = record {
  host_policy_response = err not_fetched;
  policy_response = ok (record { content_length = none; body = bytes });
  now_unix_ms = now;
}

abbrev marked : AgentState
marked = record fresh {
  last_policy_fingerprint = some "Audit:172.30.0.0/24";
  host_policy_failures = 1;
}

fetched : Fetches world cli (sensed [] 9) isolation
unfolding fetch_policy policy_is_stale
fetched = refl

fetched_later :
    Fetches world cli (sensed (1 ∷ []) 80) (record isolation { generated_at_unix_ms = 77 })
unfolding fetch_policy policy_is_stale
fetched_later = refl

went_through : (tick world cli fresh [] (sensed [] 9) []).0.0 ≡ ok (marked, [])
unfolding tick reconcile_host_policy resolve_host_policy fetch_host_policy_bytes isolation_tick
    isolate_fetched fetch_policy policy_is_stale isolate read_counters execute render_bridge_policy
    apply_policy table_exists run_nft policy_fingerprint counters_of violation_changes lookup
went_through = refl

tick_again_example :
    (tick world cli marked [] (sensed (1 ∷ []) 80) []).0.1
    ≡ counters_listing ∷ (managed world cli marked [] (sensed (1 ∷ []) 80) []).0.1
tick_again_example =
    tick_again world cli fresh marked [] [] (sensed [] 9) (sensed (1 ∷ []) 80) isolation [] [] [] 77
      refl fetched went_through fetched_later
