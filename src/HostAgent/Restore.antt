-- ===== src/HostAgent/Restore.antt =====
-- src/bin/egressy-isolation-agent.rs: what is missing of the host's policy is put back.
use egressy.Base.{
  String, Bool, false, not, ◌||◌, Option, none, some, List, [], ◌∷◌, concat, decimal, Key, is_some,
  if◌then◌else◌,
}
use egressy.HostPolicy.{
  HostPolicy, HostPolicyIpv6, host_policy_table, rule_add_args, route_replace_args,
  ipv6_rule_add_args, ipv6_route_replace_args, render_nft, nft_table_is_current,
}
use egressy.HostPolicy.Drift.{HostPolicyDrift, detect_drift, detect_ipv6_drift, is_clean}
use egressy.HostAgent.{
  Host, Agent, ◌>>=◌, ◌>>◌, return, ignore, provided, v4, v6, run_ip, run_nft, read_ip_rules,
  read_ip_routes, read_host_table,
}

abbrev pub rule_del_args : HostPolicy → List String
rule_del_args p =
    "rule"
    ∷ "del"
    ∷ "priority"
    ∷ decimal p.rule_priority
    ∷ "from"
    ∷ p.subnet
    ∷ "lookup"
    ∷ decimal p.route_table
    ∷ []

abbrev pub ipv6_rule_del_args : HostPolicy → HostPolicyIpv6 → List String
ipv6_rule_del_args p v =
    "-6"
    ∷ "rule"
    ∷ "del"
    ∷ "priority"
    ∷ decimal p.rule_priority
    ∷ "from"
    ∷ v.subnet
    ∷ "lookup"
    ∷ decimal p.route_table
    ∷ []

abbrev pub replacement : HostPolicy → String
replacement p = concat ("delete table inet " ∷ host_policy_table ∷ "\n" ∷ render_nft p ∷ [])

abbrev pub stale_of : HostPolicy → Option String → Bool
stale_of p none = false
stale_of p (some listing) = not (nft_table_is_current p listing)

abbrev pub with_listing : HostPolicy → Option String → HostPolicyDrift → HostPolicyDrift
with_listing p listing d = record d { nft_table_stale = stale_of p listing }

module _ (h : Host) where
  -- The loop over the arguments of several commands.
  unfoldable pub run_each : List (List String) → Agent (Unit {0})
  run_each [] = return tt
  run_each (args ∷ more) = run_ip h args >> run_each more

  unfoldable pub restore_table : HostPolicy → HostPolicyDrift → Agent (Unit {0})
  restore_table p d =
      if d.nft_table_missing
      then run_nft h (render_nft p)
      else (if d.nft_table_stale then run_nft h (replacement p) else return tt)

  unfoldable pub restore_rule : HostPolicy → Agent (Unit {0})
  restore_rule p = do ignore (run_ip h (rule_del_args p)); run_ip h (rule_add_args p)

  abbrev pub clear_ipv6_rule : HostPolicy → Option HostPolicyIpv6 → Agent (Unit {0})
  clear_ipv6_rule p none = return tt
  clear_ipv6_rule p (some v) = ignore (run_ip h (ipv6_rule_del_args p v))

  abbrev pub run_some : Option (List String) → Agent (Unit {0})
  run_some none = return tt
  run_some (some args) = run_ip h args

  unfoldable pub restore_ipv6_rule : HostPolicy → Agent (Unit {0})
  restore_ipv6_rule p = do clear_ipv6_rule p p.ipv6; run_some (ipv6_rule_add_args p)

  unfoldable pub apply_host_policy : HostPolicy → HostPolicyDrift → Agent (Unit {0})
  apply_host_policy p d = do
    restore_table p d
    provided d.rule_missing (restore_rule p)
    provided (d.subnet_route_missing || d.default_route_missing) (run_each (route_replace_args p))
    provided d.ipv6_routes_missing (run_each (ipv6_route_replace_args p))
    provided d.ipv6_rule_missing (restore_ipv6_rule p)

  module _ {Ip6 : Type 0} ⦃k : Key Ip6⦄ (parse_ip6 : String → Option Ip6) where
    abbrev pub observe_ipv6 : HostPolicy → HostPolicyDrift → Agent HostPolicyDrift
    observe_ipv6 p d = do
      rules ← read_ip_rules h v6
      routes ← read_ip_routes h v6 p.route_table
      return (detect_ipv6_drift parse_ip6 d rules routes p)

    -- The first half of `reconcile_with`: what is missing.
    unfoldable pub observe : HostPolicy → Agent HostPolicyDrift
    observe p = do
      rules ← read_ip_rules h v4
      routes ← read_ip_routes h v4 p.route_table
      listing ← read_host_table h
      let d = with_listing p listing (detect_drift rules routes (is_some listing) p)
      if is_some p.ipv6 then observe_ipv6 p d else return d

    unfoldable pub reconcile_with : HostPolicy → Agent (Unit {0})
    unfolding observe
    reconcile_with p = do d ← observe p; if is_clean d then return tt else apply_host_policy p d
