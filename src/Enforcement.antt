-- ===== src/Enforcement.antt =====
-- src/enforcement.rs: the policy of the gateway's firewall. What the commands of nft do is an
-- argument of each call; the lock makes the calls a sequence. `String::parse` of an IPv6 address is
-- a parameter.
pub mod Counters
pub mod Calls
pub mod Accounting
pub mod Targets
pub mod Applying
use egressy.Base.{
  is_ascii_alphanumeric, all_chars, ℕ, String, Bool, true, false, not, ◌&&◌, ◌||◌, Option, none,
  some, List, [], ◌∷◌, map, Map, lookup, insert, remove, retain, string_key, str_eq, ◌==◌,
  if◌then◌else◌, ◌⊎◌, inl, inr,
}
use egressy.State.{ClientState}
use egressy.Enforcement.Counters.{
  ClientCounters, ClientCounterTotals, NftCounter, new, totals, seed_all, observe_counter,
}

-- `Dnat`: the public port, and the client's address and port.
pub record Dnat : Type 0 where
  pub public_port : ℕ
  pub client : ℕ
  pub port : ℕ

pub record DnatTarget : Type 0 where
  pub container_id : String
  pub address : ℕ
  pub port : ℕ

abbrev pub target_eq : DnatTarget → DnatTarget → Bool
target_eq s t = str_eq s.container_id t.container_id && (s.address == t.address && s.port == t.port)

-- `==` of two `Option<&DnatTarget>`.
abbrev pub same_target : Option DnatTarget → Option DnatTarget → Bool
same_target none none = true
same_target (some s) (some t) = target_eq s t
same_target _ _ = false

abbrev pub dnat_eq : Dnat → Dnat → Bool
dnat_eq d e = d.public_port == e.public_port && (d.client == e.client && d.port == e.port)

pub record DesiredPolicy (Ip6 : Type 0) : Type 0 where
  pub dnat_allowed : Bool
  pub dnat_targets : Map String DnatTarget
  pub desired_dnat : Map String Dnat
  pub applied_dnat : Map String Dnat
  pub clients : Map String (ClientCounters Ip6)

-- `DesiredPolicy::default`.
abbrev pub default_policy : {Ip6 : Type 0} → DesiredPolicy Ip6
default_policy = record {
  dnat_allowed = false;
  dnat_targets = [];
  desired_dnat = [];
  applied_dnat = [];
  clients = [];
}

-- Why a call fails.
pub data Failure : Type 0 where
  no_command counters_unread counters_undecoded rules_refused : Failure

-- What `table_exists` and the listing of the counters come to, and what `nft -f -` comes to.
pub data Listing : Type 0 where
  not_run no_table unread undecoded : Listing
  listed : List (Option NftCounter) → Listing

pub data Application : Type 0 where
  not_started refused accepted : Application

-- What one run of `apply_locked` meets.
pub record Kernel : Type 0 where
  pub listing : Listing
  pub application : Application

-- `ClientCounterRule`, and what `render_gateway_firewall` of src/host.rs gets of the policy.
pub record ClientCounterRule (Ip6 : Type 0) : Type 0 where
  pub container_id : String
  pub address : ℕ
  pub ipv6_address : Option Ip6
  pub counts : ClientCounterTotals

pub record Ruleset (Ip6 : Type 0) : Type 0 where
  pub dnat : List Dnat
  pub counters : List (ClientCounterRule Ip6)

abbrev pub map_values {ℓ κ λ'} :
    {K : Type ℓ} {V : Type κ} {W : Type λ'} → (K → V → W) → Map K V → Map K W
map_values f [] = []
map_values f ((a, v) ∷ m) = (a, f a v) ∷ map_values f m

abbrev pub values {ℓ κ} : {K : Type ℓ} {V : Type κ} → Map K V → List V
values [] = []
values ((a, v) ∷ m) = v ∷ values m

module _ {Priorities : Type 0} where
  -- A later client with the same usage replaces an earlier one.
  unfoldable pub select_from :
      Map String (ClientState Priorities) → Map String DnatTarget → Map String DnatTarget
  select_from [] targets = targets
  select_from ((id, client) ∷ m) targets =
      let skipped = select_from m targets in
      if client.port_forward_target && client.compliant
      then (elim client.target_port [
        | none ↦ skipped
        | some port ↦ select_from m (
            insert client.usage_id
              (record {
                container_id = client.container_id;
                address = client.ipv4_address;
                port = port;
              })
              targets)
      ])
      else skipped

  unfoldable pub select_dnat_targets : Map String (ClientState Priorities) → Map String DnatTarget
  unfolding select_from
  select_dnat_targets clients = select_from clients []

-- `or_insert_with`.
abbrev pub or_new : {Ip6 : Type 0} → Option (ClientCounters Ip6) → ℕ → ClientCounters Ip6
or_new none address = new address
or_new (some c) address = c

-- `and_then`.
abbrev pub parsed : {Ip6 : Type 0} → (String → Option Ip6) → Option String → Option Ip6
parsed parse none = none
parsed parse (some address) = parse address

module _ {Ip6 Priorities : Type 0} (parse : String → Option Ip6) where
  abbrev pub is_counted : String → ClientState Priorities → Bool
  is_counted container_id client =
      not (client.ipv4_address == 0)
      && (not (str_eq container_id "") && all_chars is_ascii_alphanumeric container_id)

  -- The loop of `sync_clients`.
  unfoldable pub enter_clients :
      Map String (ClientState Priorities)
      → Map String (ClientCounters Ip6)
      → Map String (ClientCounters Ip6)
  enter_clients [] counters = counters
  enter_clients ((id, client) ∷ m) counters = enter_clients m (
      if is_counted id client
      then insert id
          (record (or_new (lookup id counters) client.ipv4_address) {
            ipv6_address = parsed parse client.ipv6_address;
          })
          counters
      else counters)

  abbrev pub same_address : Option (ClientState Priorities) → ClientCounters Ip6 → Bool
  same_address none c = false
  same_address (some client) c = client.ipv4_address == c.address

  unfoldable pub sync_clients :
      Map String (ClientState Priorities) → DesiredPolicy Ip6 → DesiredPolicy Ip6
  unfolding enter_clients
  sync_clients clients p = record p {
    clients = enter_clients clients (retain (λ id c. same_address (lookup id clients) c) p.clients);
  }

module _ {Ip6 : Type 0} where
  -- The loop of `observe_kernel_locked`.
  unfoldable pub observe_counters :
      List (Option NftCounter) → Map String (ClientCounters Ip6) → Map String (ClientCounters Ip6)
  observe_counters [] clients = clients
  observe_counters (none ∷ items) clients = observe_counters items clients
  observe_counters (some counter ∷ items) clients =
      observe_counters items (map_values (observe_counter counter) clients)

  unfoldable pub observe_kernel_locked :
      Bool → Listing → DesiredPolicy Ip6 → DesiredPolicy Ip6 × (Failure ⊎ Unit {0})
  unfolding observe_counters
  observe_kernel_locked false listing p = (p, inr tt)
  observe_kernel_locked true not_run p = (p, inl no_command)
  observe_kernel_locked true no_table p = (p, inr tt)
  observe_kernel_locked true unread p = (p, inl counters_unread)
  observe_kernel_locked true undecoded p = (p, inl counters_undecoded)
  observe_kernel_locked true (listed items) p =
      (record p { clients = observe_counters items p.clients }, inr tt)

  -- `?` on a call that may fail.
  unfoldable pub after :
      {A : Type 0}
      → DesiredPolicy Ip6 × (Failure ⊎ Unit {0})
      → (DesiredPolicy Ip6 → DesiredPolicy Ip6 × (Failure ⊎ A))
      → DesiredPolicy Ip6 × (Failure ⊎ A)
  after (q, inl why) f = (q, inl why)
  after (q, inr done) f = f q

  -- `?` and then `Ok(true)`.
  unfoldable pub then_true :
      {A : Type 0} → DesiredPolicy Ip6 × (Failure ⊎ A) → DesiredPolicy Ip6 × (Failure ⊎ Bool)
  then_true (q, inl why) = (q, inl why)
  then_true (q, inr done) = (q, inr true)

  abbrev pub counter_rule : String × ClientCounters Ip6 → ClientCounterRule Ip6
  counter_rule (id, c) = record {
    container_id = id;
    address = c.address;
    ipv6_address = c.ipv6_address;
    counts = totals c;
  }

  unfoldable pub rules_of : DesiredPolicy Ip6 → Ruleset Ip6
  rules_of p = record { dnat = values p.desired_dnat; counters = map counter_rule p.clients }

  -- `apply_locked` after the counters are read. On success the rules that nft took are with the
  -- result.
  unfoldable pub install :
      Application → DesiredPolicy Ip6 → DesiredPolicy Ip6 × (Failure ⊎ Option (Ruleset Ip6))
  unfolding rules_of
  install not_started p = (p, inl no_command)
  install refused p = (p, inl rules_refused)
  install accepted p = (
    record p { clients = map_values (λ id c. seed_all c) p.clients; applied_dnat = p.desired_dnat },
    inr (some (rules_of p)),
  )

  unfoldable pub apply_locked :
      Bool → Kernel → DesiredPolicy Ip6 → DesiredPolicy Ip6 × (Failure ⊎ Option (Ruleset Ip6))
  unfolding install observe_kernel_locked after
  apply_locked false k p = (p, inr none)
  apply_locked true k p = after (observe_kernel_locked true k.listing p) (install k.application)

  unfoldable pub enable_dnat : DesiredPolicy Ip6 → DesiredPolicy Ip6
  enable_dnat p = record p { dnat_allowed = true }

  unfoldable pub disable_dnat :
      Bool → Kernel → DesiredPolicy Ip6 → DesiredPolicy Ip6 × (Failure ⊎ Option (Ruleset Ip6))
  unfolding apply_locked
  disable_dnat enabled k p =
      apply_locked enabled k (record p { dnat_allowed = false; desired_dnat = [] })

  -- `set_dnat_for_target`: `inr true` if the DNAT was set and applied.
  unfoldable pub set_dnat_for_target :
      Bool
      → Kernel
      → String
      → Dnat
      → DnatTarget
      → DesiredPolicy Ip6
      → DesiredPolicy Ip6 × (Failure ⊎ Bool)
  unfolding apply_locked then_true
  set_dnat_for_target enabled k usage_id dnat target p =
      if not p.dnat_allowed || not (same_target (lookup usage_id p.dnat_targets) (some target))
      then (p, inr false)
      else then_true
          (apply_locked enabled k (record p { desired_dnat = insert usage_id dnat p.desired_dnat }))

  unfoldable pub clear_dnat_for_usage :
      Bool
      → Kernel
      → String
      → DesiredPolicy Ip6
      → DesiredPolicy Ip6 × (Failure ⊎ Option (Ruleset Ip6))
  unfolding apply_locked
  clear_dnat_for_usage enabled k usage_id p =
      apply_locked enabled k (record p { desired_dnat = remove usage_id p.desired_dnat })

  unfoldable pub dnat_is_applied : String → Dnat → DesiredPolicy Ip6 → Bool
  dnat_is_applied usage_id dnat p = elim (lookup usage_id p.applied_dnat) [
    | none ↦ false
    | some d ↦ dnat_eq d dnat
  ]

  -- `retain` of `reconcile_clients`, and the new targets.
  unfoldable pub retarget : Map String DnatTarget → DesiredPolicy Ip6 → DesiredPolicy Ip6
  retarget targets p = record p {
    desired_dnat =
        retain
          (λ usage_id dnat. same_target (lookup usage_id p.dnat_targets) (lookup usage_id targets))
          p.desired_dnat;
    dnat_targets = targets;
  }

  -- `sample_client_counters`.
  unfoldable pub sample_client_counters :
      Bool
      → Listing
      → DesiredPolicy Ip6
      → DesiredPolicy Ip6 × (Failure ⊎ Map String ClientCounterTotals)
  unfolding observe_kernel_locked after
  sample_client_counters enabled listing p =
      after (observe_kernel_locked enabled listing p)
        (λ q. (q, inr (map_values (λ id c. totals c) q.clients)))

module _ {Ip6 Priorities : Type 0} (parse : String → Option Ip6) where
  -- `reconcile_clients` reads the counters twice: before the clients change, and in `apply_locked`.
  unfoldable pub reconcile_clients :
      Bool
      → Listing
      → Kernel
      → Map String (ClientState Priorities)
      → DesiredPolicy Ip6
      → DesiredPolicy Ip6 × (Failure ⊎ Option (Ruleset Ip6))
  unfolding observe_kernel_locked after retarget sync_clients apply_locked select_dnat_targets
  reconcile_clients enabled before k clients p =
      after (observe_kernel_locked enabled before p) (λ q.
        apply_locked enabled k
          (sync_clients parse clients (retarget (select_dnat_targets clients) q)))
