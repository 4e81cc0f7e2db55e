-- ===== src/Tests/HostPolicy.antt =====
-- A policy of src/host_policy.rs that routes both families, and a host where it is installed.
use egressy.Base.{◌≡◌, refl, ◌↔◌, true, none, some, List, [], ◌∷◌, split_once, parse_unsigned}
use egressy.HostPolicy.{HostPolicy, new}
use egressy.HostPolicy.Drift.{IpRuleEntry, IpRouteEntry, is_clean, detect_drift, split_prefix}
use egressy.HostPolicy.Detection.{
  Some, IsPolicyRule, IsSubnetRoute, IsDefaultRoute, IsUnreachableRoute, detect_drift_clean,
}

abbrev bridge_policy : HostPolicy
unfolding new
bridge_policy = new 5 "172.30.0.0/24" "br-vpn" "172.30.0.2" 200

abbrev rules : List IpRuleEntry
rules =
    record { priority = some 100; src = some "172.30.0.0"; srclen = some 24; table = some "200" }
    ∷ []

abbrev routes : List IpRouteEntry
routes =
    record {
      dst = some "default";
      dev = some "br-vpn";
      gateway = some "172.30.0.2";
      scope = none;
      route_type = none;
    }
    ∷ []

prefix_split : split_prefix bridge_policy.subnet ≡ some ("172.30.0.0", 24)
unfolding split_prefix new split_once parse_unsigned
prefix_split = refl

detect_drift_clean_example : (is_clean (detect_drift rules routes true bridge_policy) ≡ true) ↔ (
    Some (IsPolicyRule bridge_policy "172.30.0.0" 24) rules
    × Some (IsSubnetRoute bridge_policy) routes
    × Some (IsDefaultRoute bridge_policy) routes
    × Some IsUnreachableRoute routes
    × (◌≡◌ true true))
detect_drift_clean_example =
    detect_drift_clean rules routes bridge_policy "172.30.0.0" 24 true prefix_split
