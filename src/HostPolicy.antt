-- ===== src/HostPolicy.antt =====
-- src/host_policy.rs: the egress policy of the host, the commands of `ip` and the table of nft that
-- install it.
pub mod Drift
pub mod Detection
pub mod Rendering
use egressy.Base.{
  ℕ, String, Bool, Option, none, some, List, [], ◌∷◌, ◌++◌, append, decimal, concat, contains,
}

abbrev pub host_policy_table : String
host_policy_table = "egressy_host"

-- `RULE_PRIORITY`, as the constant's name is a field's too.
abbrev pub default_rule_priority : ℕ
default_rule_priority = 100

abbrev pub schema_version_ipv4 : ℕ
schema_version_ipv4 = 1

abbrev pub ipv6_schema_version : ℕ
ipv6_schema_version = 2

-- `u32::MAX`.
abbrev pub unreachable_metric : ℕ
unreachable_metric = 4294967295

abbrev pub ipv6_kill_switch_comment : String
ipv6_kill_switch_comment = "egressy-ipv6-kill-switch"

pub record HostPolicyIpv6 : Type 0 where
  pub subnet : String
  pub gateway_ip : String

pub record HostPolicy : Type 0 where
  pub schema_version : ℕ
  pub generated_at_unix_ms : ℕ
  pub subnet : String
  pub bridge : String
  pub gateway_ip : String
  pub route_table : ℕ
  pub rule_priority : ℕ
  pub ipv6 : Option HostPolicyIpv6

unfoldable pub new : ℕ → String → String → String → ℕ → HostPolicy
new generated_at_unix_ms subnet bridge gateway_ip route_table = record {
  schema_version = schema_version_ipv4;
  generated_at_unix_ms = generated_at_unix_ms;
  subnet = subnet;
  bridge = bridge;
  gateway_ip = gateway_ip;
  route_table = route_table;
  rule_priority = default_rule_priority;
  ipv6 = none;
}

unfoldable pub with_ipv6 : String → String → HostPolicy → HostPolicy
with_ipv6 subnet gateway_ip p = record p {
  schema_version = ipv6_schema_version;
  ipv6 = some (record { subnet = subnet; gateway_ip = gateway_ip });
}

unfoldable pub rule_add_args : HostPolicy → List String
rule_add_args p =
    "rule"
    ∷ "add"
    ∷ "priority"
    ∷ decimal p.rule_priority
    ∷ "from"
    ∷ p.subnet
    ∷ "lookup"
    ∷ decimal p.route_table
    ∷ []

unfoldable pub route_replace_args : HostPolicy → List (List String)
route_replace_args p =
    let table : String = decimal p.route_table in
    ("route"
      ∷ "replace"
      ∷ "table"
      ∷ table
      ∷ "unreachable"
      ∷ "default"
      ∷ "metric"
      ∷ decimal unreachable_metric
      ∷ [])
    ∷ ("route" ∷ "replace" ∷ "table" ∷ table ∷ p.subnet ∷ "dev" ∷ p.bridge ∷ "scope" ∷ "link" ∷ [])
    ∷ ("route" ∷ "replace" ∷ "table" ∷ table ∷ "default" ∷ "via" ∷ p.gateway_ip ∷ "dev" ∷ p.bridge
        ∷ "onlink" ∷ [])
    ∷ []

unfoldable pub ipv6_rule_add_args : HostPolicy → Option (List String)
ipv6_rule_add_args p = elim p.ipv6 [
  | none ↦ none
  | some v ↦ some (
      "-6"
      ∷ "rule"
      ∷ "add"
      ∷ "priority"
      ∷ decimal p.rule_priority
      ∷ "from"
      ∷ v.subnet
      ∷ "lookup"
      ∷ decimal p.route_table
      ∷ [])
]

-- The closure `route`.
abbrev pub ipv6_route : String → List String → List String
ipv6_route table tail = "-6" ∷ "route" ∷ "replace" ∷ "table" ∷ table ∷ tail

unfoldable pub ipv6_route_replace_args : HostPolicy → List (List String)
ipv6_route_replace_args p = elim p.ipv6 [
  | none ↦ []
  | some v ↦
      ipv6_route (decimal p.route_table)
        ("unreachable" ∷ "default" ∷ "metric" ∷ decimal unreachable_metric ∷ [])
      ∷ ipv6_route (decimal p.route_table) (v.subnet ∷ "dev" ∷ p.bridge ∷ [])
      ∷ ipv6_route (decimal p.route_table)
          ("default" ∷ "via" ∷ v.gateway_ip ∷ "dev" ∷ p.bridge ∷ "onlink" ∷ [])
      ∷ []
]

-- What of the IPv6 policy the marker names.
abbrev pub scope_of : Option HostPolicyIpv6 → String
scope_of none = "disabled"
scope_of (some v) = v.subnet

unfoldable pub ipv6_kill_switch_marker : HostPolicy → String
ipv6_kill_switch_marker p = append ipv6_kill_switch_comment (append ":" (scope_of p.ipv6))

abbrev pub routed_source : String → Option HostPolicyIpv6 → String
routed_source bridge none = ""
routed_source bridge (some v) = concat (
    "    ip6 saddr " ∷ v.subnet ∷ " oifname != \"" ∷ bridge
    ∷ "\" counter reject with icmpv6 type admin-prohibited\n" ∷ [])

-- The table up to the marker's opening quote, and from its closing one.
abbrev pub nft_head : HostPolicy → String
nft_head p = concat (
    "table inet "
    ∷ host_policy_table
    ∷ " {\n  chain forward {\n    type filter hook forward priority -5; policy accept;\n    ip saddr "
    ∷ p.subnet
    ∷ " oifname != \""
    ∷ p.bridge
    ∷ "\" counter reject with icmp type admin-prohibited\n"
    ∷ routed_source p.bridge p.ipv6
    ∷ "    meta nfproto ipv6 iifname \""
    ∷ p.bridge
    ∷ "\" oifname != \""
    ∷ p.bridge
    ∷ "\" counter reject with icmpv6 type admin-prohibited comment "
    ∷ [])

abbrev pub nft_tail : HostPolicy → String
nft_tail p = concat (
    "\n    meta nfproto ipv6 iifname != \"" ∷ p.bridge ∷ "\" oifname \"" ∷ p.bridge
    ∷ "\" counter drop\n  }\n}\n" ∷ [])

abbrev pub quoted : String → String
quoted s = append "\"" (append s "\"")

unfoldable pub render_nft : HostPolicy → String
unfolding ipv6_kill_switch_marker
render_nft p = append (nft_head p) (append (quoted (ipv6_kill_switch_marker p)) (nft_tail p))

unfoldable pub nft_table_is_current : HostPolicy → String → Bool
unfolding ipv6_kill_switch_marker
nft_table_is_current p listing = contains (quoted (ipv6_kill_switch_marker p)) listing
