-- ===== src/Tests/Enforcement.antt =====
-- A policy of src/enforcement.rs with one client that wants a port forwarded.
use egressy.Base.{
  ◌+◌, ◌≡◌, refl, ◌⊎◌, inl, inr, String, true, Option, none, some, List, [], ◌∷◌, Map, lookup,
  string_key, arith, if◌then◌else◌,
}
use egressy.State.{ClientState, container_lifetime, RouteIntentStatus}
use egressy.Enforcement.{
  Dnat, DnatTarget, DesiredPolicy, default_policy, Failure, no_table, listed, accepted, refused,
  Kernel, Ruleset, same_target, values, select_dnat_targets, reconcile_clients, apply_locked,
  observe_kernel_locked,
}
use egressy.Enforcement.Counters.{new}
use egressy.Enforcement.Calls.{
  IsGuarded, Call, enables, disables, sets, reconciles, calls, calls-IsGuarded,
}
use egressy.Enforcement.Targets.{reconcile_clients_keeps}
use egressy.Enforcement.Applying.{AllGoOn, apply_locked_outcome}
use egressy.Enforcement.Accounting.{
  Happening, passes, reads, replaces, happen, happenings, opened, total_exact,
}

abbrev torrent : ClientState Unit
torrent = record {
  container_id = "abc";
  usage_id = "torrent";
  usage_id_source = container_lifetime;
  name = "torrent";
  ipv4_address = 2886729730;
  port_forward_target = true;
  target_port = some 6881;
  compliant = true;
  compliance_message = "Routed";
  running = true;
  ipv6_address = none;
  networks = "egress" ∷ [];
  port_forward_label_valid = true;
  route_intent = record {
    status = RouteIntentStatus.verified;
    ipv4_default_network = none;
    ipv6_default_network = none;
    priorities = tt;
    reason_code = "route.verified";
    safe_message = "Verified";
  };
  traffic = record {
    download_packets = 0;
    downloaded_bytes = 0;
    upload_packets = 0;
    uploaded_bytes = 0;
    sampled_at_unix_ms = none;
    history = [];
  };
}

abbrev clients : Map String (ClientState Unit)
clients = ("abc", torrent) ∷ []

abbrev parse : String → Option String
parse s = some s

abbrev target : DnatTarget
target = record { container_id = "abc"; address = 2886729730; port = 6881 }

abbrev forward : Dnat
forward = record { public_port = 51820; client = 2886729730; port = 6881 }

abbrev works : Kernel
works = record { listing = no_table; application = accepted }

abbrev session : List (Call Unit)
session =
    reconciles no_table works clients
    ∷ enables
    ∷ sets works "torrent" forward target
    ∷ reconciles (listed []) (record works { application = refused }) []
    ∷ disables works
    ∷ []

default-IsGuarded : IsGuarded {Ip6 = String} default_policy
unfolding lookup
default-IsGuarded = record { distinct = tt; aimed = λ u d e. cc; barred = λ e. refl }

calls-IsGuarded_example : IsGuarded (calls parse true session default_policy)
calls-IsGuarded_example = calls-IsGuarded parse true session default_policy default-IsGuarded

abbrev aimed : DesiredPolicy String
aimed = record default_policy {
  dnat_allowed = true;
  dnat_targets = ("torrent", target) ∷ [];
  desired_dnat = ("torrent", forward) ∷ [];
  clients = ("abc", new 2886729730) ∷ [];
}

aimed_read : (observe_kernel_locked true no_table aimed).1 ≡ inr tt
unfolding observe_kernel_locked
aimed_read = refl

reconcile_clients_keeps_example :
    let q = (reconcile_clients parse true no_table works clients aimed).0 in
    let targets = select_dnat_targets clients in
    (q.dnat_targets ≡ targets)
    × (lookup "torrent" q.desired_dnat ≡ (
        if same_target (lookup "torrent" aimed.dnat_targets) (lookup "torrent" targets)
        then lookup "torrent" aimed.desired_dnat
        else none))
unfolding lookup
reconcile_clients_keeps_example =
    reconcile_clients_keeps parse true no_table works clients aimed "torrent" (refl, tt) aimed_read

apply_locked_outcome_example :
    let (q, r) = apply_locked true works aimed in
    ((why : Failure) × (r ≡ inl why) × (q.applied_dnat ≡ []))
    ⊎ ((rules : Ruleset String) × (r ≡ inr (some rules))
        × (q.applied_dnat ≡ aimed.desired_dnat)
        × (rules.dnat ≡ values aimed.desired_dnat)
        × AllGoOn q.clients rules.counters)
apply_locked_outcome_example = apply_locked_outcome works aimed

abbrev day : List Happening
day = passes 100 ∷ reads ∷ passes 50 ∷ replaces 3 ∷ passes 10 ∷ []

total_exact_example :
    let l = happen reads (happenings day opened) in l.accumulator.total + l.lost ≡ l.passed
unfolding happenings
total_exact_example = total_exact day tt (omega arith)
