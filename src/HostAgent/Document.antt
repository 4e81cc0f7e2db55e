-- ===== src/HostAgent/Document.antt =====
-- src/bin/egressy-isolation-agent.rs: the documents that the agent fetches from the gateway. JSON,
-- addresses and networks are read by other packages, which are arguments; a body is its bytes.
use egressy.Base.{
  ℕ, u64_max, ◌*◌, ◌-◌, min, String, Bool, true, false, not, ◌||◌, ◌&&◌, Option, none, some, List,
  length, ltb, ◌==◌, is_empty,
}
use egressy.Base.Results.{Result, ok, ◌>>=◌, ◌>>◌, ensure, ok_or}
use egressy.HostPolicy.{HostPolicy, HostPolicyIpv6, schema_version_ipv4, ipv6_schema_version}
use egressy.Isolation.{IsolationPolicy}
use egressy.HostAgent.{Fault, not_json, unsupported, invalid, incomplete, too_large, stale}

-- What the packages read.
pub record Formats : Type 0 where
  pub host_policy_of_json : List ℕ → Option HostPolicy
  pub isolation_policy_of_json : List ℕ → Option IsolationPolicy
  pub is_net4 : String → Bool
  pub is_net6 : String → Bool
  pub is_ip4 : String → Bool
  pub is_ip6 : String → Bool

pub record Response : Type 0 where
  pub content_length : Option ℕ
  pub body : List ℕ

abbrev pub max_host_policy_bytes : ℕ
max_host_policy_bytes = 65536

abbrev pub max_policy_bytes : ℕ
max_policy_bytes = 1048576

abbrev pub longer_than : ℕ → Option ℕ → Bool
longer_than maximum none = false
longer_than maximum (some n) = ltb maximum n

abbrev pub expected_schema : Option HostPolicyIpv6 → ℕ
expected_schema none = schema_version_ipv4
expected_schema (some v) = ipv6_schema_version

-- A document from too far back, or from too far ahead.
unfoldable pub policy_is_stale : IsolationPolicy → ℕ → ℕ → Bool
policy_is_stale policy stale_seconds now_unix_ms =
    let tolerance = min (stale_seconds * 1000) u64_max in
    ltb tolerance (now_unix_ms - policy.generated_at_unix_ms)
    || ltb tolerance (policy.generated_at_unix_ms - now_unix_ms)

module _ (f : Formats) where
  abbrev pub valid_ipv6 : Option HostPolicyIpv6 → Bool
  valid_ipv6 none = true
  valid_ipv6 (some v) = f.is_net6 v.subnet && f.is_ip6 v.gateway_ip

  unfoldable pub parse_host_policy : List ℕ → Result Fault HostPolicy
  parse_host_policy body = do
    policy ← ok_or (f.host_policy_of_json body) not_json
    ensure (policy.schema_version == expected_schema policy.ipv6) unsupported
    ensure (valid_ipv6 policy.ipv6) invalid
    ensure (f.is_net4 policy.subnet) invalid
    ensure (f.is_ip4 policy.gateway_ip) invalid
    ensure (not (is_empty policy.bridge || policy.route_table == 0)) incomplete
    ok policy

  -- The body is measured again, as the length that is declared need not be there.
  unfoldable pub fetch_host_policy_bytes :
      Result Fault Response → Result Fault (HostPolicy × List ℕ)
  fetch_host_policy_bytes sent = do
    response ← sent
    ensure (not (longer_than max_host_policy_bytes response.content_length)) too_large
    ensure (not (ltb max_host_policy_bytes (length response.body))) too_large
    policy ← parse_host_policy response.body
    ok (policy, response.body)

  abbrev pub valid_subnet6 : Option String → Bool
  valid_subnet6 none = true
  valid_subnet6 (some subnet) = f.is_net6 subnet

  unfoldable pub fetch_policy : ℕ → ℕ → Result Fault Response → Result Fault IsolationPolicy
  fetch_policy stale_seconds now_unix_ms sent = do
    response ← sent
    ensure (not (longer_than max_policy_bytes response.content_length)) too_large
    ensure (not (ltb max_policy_bytes (length response.body))) too_large
    policy ← ok_or (f.isolation_policy_of_json response.body) not_json
    ensure (policy.schema_version == 1) unsupported
    ensure (f.is_net4 policy.subnet) invalid
    ensure (valid_subnet6 policy.ipv6_subnet) invalid
    ensure (not (policy_is_stale policy stale_seconds now_unix_ms)) stale
    ok policy
