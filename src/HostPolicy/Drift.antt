-- ===== src/HostPolicy/Drift.antt =====
-- What is missing of the policy on the host: the detection of src/host_policy.rs. An address of
-- IPv6 is read by the standard library; the reading is a parameter.
use egressy.Base.{
  ℕ, String, Bool, true, false, not, ◌&&◌, Option, none, some, List, [], ◌∷◌, ◌==◌, str_eq, decimal,
  parse_unsigned, split_once, any, Key,
}
use egressy.HostPolicy.{HostPolicy, HostPolicyIpv6}

pub record IpRuleEntry : Type 0 where
  pub priority : Option ℕ
  pub src : Option String
  pub srclen : Option ℕ
  pub table : Option String

pub record IpRouteEntry : Type 0 where
  pub dst : Option String
  pub dev : Option String
  pub gateway : Option String
  pub scope : Option String
  pub route_type : Option String

pub record HostPolicyDrift : Type 0 where
  pub rule_missing : Bool
  pub subnet_route_missing : Bool
  pub default_route_missing : Bool
  pub nft_table_missing : Bool
  pub nft_table_stale : Bool
  pub ipv6_rule_missing : Bool
  pub ipv6_routes_missing : Bool

unfoldable pub is_clean : HostPolicyDrift → Bool
is_clean d =
    not d.rule_missing
    && (not d.subnet_route_missing
        && (not d.default_route_missing
            && (not d.nft_table_missing
                && (not d.nft_table_stale
                    && (not d.ipv6_rule_missing && not d.ipv6_routes_missing)))))

abbrev pub when : Bool → String → List String → List String
when true name names = name ∷ names
when false name names = names

unfoldable pub missing : HostPolicyDrift → List String
missing d = when d.rule_missing "policy routing rule" (
    when d.subnet_route_missing "subnet route" (
      when d.default_route_missing "tunnel default route" (
        when d.nft_table_missing "fail-closed nftables table" (
          when d.nft_table_stale "current IPv6 kill switch" (
            when d.ipv6_rule_missing "IPv6 policy routing rule"
              (when d.ipv6_routes_missing "IPv6 policy routes" []))))))

-- The length is a `u8`.
unfoldable pub split_prefix : String → Option (String × ℕ)
split_prefix prefix = elim (split_once 47 prefix) [
  | none ↦ none
  | some (address, length) ↦ elim (parse_unsigned 255 length) [
    | none ↦ none
    | some n ↦ some (address, n)
  ]
]

abbrev pub is_text : Option String → String → Bool
is_text none s = false
is_text (some t) s = str_eq t s

abbrev pub is_number : Option ℕ → ℕ → Bool
is_number none n = false
is_number (some m) n = m == n

-- The closure of `rule_present`, for the two halves of the prefix.
abbrev pub rule_matches : HostPolicy → String → ℕ → IpRuleEntry → Bool
rule_matches p address length rule =
    is_number rule.priority p.rule_priority
    && (is_text rule.src address
        && (is_number rule.srclen length && is_text rule.table (decimal p.route_table)))

unfoldable pub rule_present : List IpRuleEntry → HostPolicy → Bool
unfolding split_prefix
rule_present rules p = elim (split_prefix p.subnet) [
  | none ↦ false
  | some (address, length) ↦ any (rule_matches p address length) rules
]

abbrev pub is_subnet_route : HostPolicy → IpRouteEntry → Bool
is_subnet_route p route = is_text route.dst p.subnet && is_text route.dev p.bridge

abbrev pub is_default_route : HostPolicy → IpRouteEntry → Bool
is_default_route p route =
    is_text route.dst "default"
    && (is_text route.dev p.bridge && is_text route.gateway p.gateway_ip)

abbrev pub is_unreachable_route : IpRouteEntry → Bool
is_unreachable_route route = is_text route.dst "default" && is_text route.route_type "unreachable"

unfoldable pub routes_present : List IpRouteEntry → HostPolicy → Bool × Bool
routes_present routes p = (
  any (is_subnet_route p) routes,
  any (is_default_route p) routes && any is_unreachable_route routes,
)

unfoldable pub detect_drift :
    List IpRuleEntry → List IpRouteEntry → Bool → HostPolicy → HostPolicyDrift
unfolding rule_present routes_present
detect_drift rules routes nft_table_exists p =
    let (subnet_route, default_route) = routes_present routes p in
    record {
      rule_missing = not (rule_present rules p);
      subnet_route_missing = not subnet_route;
      default_route_missing = not default_route;
      nft_table_missing = not nft_table_exists;
      nft_table_stale = false;
      ipv6_rule_missing = false;
      ipv6_routes_missing = false;
    }

module _ {Ip6 : Type 0} ⦃k : Key Ip6⦄ (parse_ip6 : String → Option Ip6) where
  abbrev pub parsed : Option String → Option Ip6
  parsed none = none
  parsed (some s) = parse_ip6 s

  -- `==` on two that are both there, as the first test demands.
  abbrev pub same_some : Option Ip6 → Option Ip6 → Bool
  same_some (some a) (some b) = k.beq a b
  same_some _ _ = false

  abbrev pub same_ipv6 : Option String → String → Bool
  same_ipv6 observed expected = same_some (parsed observed) (parse_ip6 expected)

  abbrev pub ipv6_rule_matches : HostPolicy → String → ℕ → IpRuleEntry → Bool
  ipv6_rule_matches p address length rule =
      is_number rule.priority p.rule_priority
      && (same_ipv6 rule.src address
          && (is_number rule.srclen length && is_text rule.table (decimal p.route_table)))

  unfoldable pub ipv6_rule_present : List IpRuleEntry → HostPolicy → HostPolicyIpv6 → Bool
  unfolding split_prefix
  ipv6_rule_present rules p v = elim (split_prefix v.subnet) [
    | none ↦ false
    | some (address, length) ↦ any (ipv6_rule_matches p address length) rules
  ]

  abbrev pub is_ipv6_subnet_route : HostPolicy → HostPolicyIpv6 → IpRouteEntry → Bool
  is_ipv6_subnet_route p v route = is_text route.dev p.bridge && is_text route.dst v.subnet

  abbrev pub is_ipv6_default_route : HostPolicy → HostPolicyIpv6 → IpRouteEntry → Bool
  is_ipv6_default_route p v route =
      is_text route.dev p.bridge
      && (is_text route.dst "default" && same_ipv6 route.gateway v.gateway_ip)

  unfoldable pub ipv6_routes_present : List IpRouteEntry → HostPolicy → HostPolicyIpv6 → Bool
  ipv6_routes_present routes p v =
      any (is_ipv6_subnet_route p v) routes
      && (any (is_ipv6_default_route p v) routes && any is_unreachable_route routes)

  unfoldable pub detect_ipv6_drift :
      HostPolicyDrift → List IpRuleEntry → List IpRouteEntry → HostPolicy → HostPolicyDrift
  unfolding ipv6_rule_present ipv6_routes_present
  detect_ipv6_drift d rules routes p = elim p.ipv6 [
    | none ↦ d
    | some v ↦ record d {
      ipv6_rule_missing = not (ipv6_rule_present rules p v);
      ipv6_routes_missing = not (ipv6_routes_present routes p v);
    }
  ]
