-- ===== src/Isolation/Render.antt =====
-- src/isolation.rs: the bridge's table of nft, rendered from the policy and from the counters read
-- before. The networks are the package ipnet's, a parameter; a failed `expect` gives none.
use egressy.Base.{
  ℕ, String, Bool, false, not, Option, none, some, List, [], ◌∷◌, ◌++◌, append, concat, join, keep,
  map, ◌==◌, if◌then◌else◌, is_some, Map, lookup, Set, put, entries, decimal, nat_key, string_key,
}
use egressy.Isolation.{
  IsolationMode, disabled, audit, enforce, IsolationParticipant, IsolationAllowance,
  IsolationPolicy, nft_name, normalize_mac, ip_text, pair_counter_name,
}

-- What the renderer uses of a network of IPv4 and of IPv6.
pub record Networks (Net Net6 : Type 0) : Type 0 where
  pub parse : String → Option Net
  pub first_host : Net → Option ℕ
  pub broadcast : Net → ℕ
  pub net_contains : Net → ℕ → Bool
  pub net_text : Net → String
  pub parse6 : String → Option Net6
  pub net6_text : Net6 → String

pub record CounterValue : Type 0 where
  pub packets : ℕ
  pub bytes : ℕ

abbrev pub counter_or_default : Option CounterValue → CounterValue
counter_or_default none = record { packets = 0; bytes = 0 }
counter_or_default (some v) = v

unfoldable pub effective_mode_of : IsolationMode → Bool → IsolationMode
effective_mode_of disabled eligible = disabled
effective_mode_of audit eligible = audit
effective_mode_of enforce eligible = if eligible then enforce else audit

unfoldable pub verdict : IsolationMode → String
verdict audit = "accept"
verdict enforce = "drop"
verdict disabled = "accept"

abbrev pub counter_line : String → CounterValue → String
counter_line name value = concat (
    "  counter "
    ∷ name
    ∷ " { packets "
    ∷ decimal value.packets
    ∷ " bytes "
    ∷ decimal value.bytes
    ∷ "; }\n"
    ∷ [])

-- The destinations that are another address than the source's.
abbrev pub others : IsolationParticipant → List IsolationParticipant → List IsolationParticipant
others source = keep (λ destination. not (source.ipv4_address == destination.ipv4_address))

-- The pairs, as the two loops go through them.
abbrev pub pairs_of :
    IsolationParticipant
    → List IsolationParticipant
    → List (IsolationParticipant × IsolationParticipant)
pairs_of source [] = []
pairs_of source (destination ∷ more) = (source, destination) ∷ pairs_of source more

abbrev pub all_pairs :
    List IsolationParticipant
    → List IsolationParticipant
    → List (IsolationParticipant × IsolationParticipant)
all_pairs [] all = []
all_pairs (source ∷ sources) all = pairs_of source (others source all) ++ all_pairs sources all

abbrev pub pair_name : IsolationParticipant × IsolationParticipant → String
pair_name (source, destination) = pair_counter_name source.container_id destination.container_id

abbrev pub pair_object :
    Map String CounterValue → IsolationParticipant × IsolationParticipant → String
pair_object counters pair =
    counter_line (pair_name pair) (counter_or_default (lookup (pair_name pair) counters))

abbrev pub pair_rule : IsolationMode → IsolationParticipant × IsolationParticipant → String
pair_rule mode (source, destination) = concat (
    "    ip saddr "
    ∷ ip_text source.ipv4_address
    ∷ " ip daddr "
    ∷ ip_text destination.ipv4_address
    ∷ " counter name "
    ∷ pair_counter_name source.container_id destination.container_id
    ∷ " "
    ∷ verdict mode
    ∷ "\n"
    ∷ [])

abbrev pub allowance_line : IsolationParticipant → IsolationAllowance → String
allowance_line source a = concat (
    "    ip saddr "
    ∷ ip_text source.ipv4_address
    ∷ " ip daddr "
    ∷ ip_text a.destination_address
    ∷ " "
    ∷ nft_name a.protocol
    ∷ " dport "
    ∷ decimal a.port
    ∷ " accept\n"
    ∷ [])

abbrev pub put_all : List String → Set String → Set String
put_all [] s = s
put_all (x ∷ xs) s = put_all xs (put x s)

abbrev pub allowance_lines : List IsolationParticipant → Set String → Set String
allowance_lines [] s = s
allowance_lines (source ∷ sources) s =
    allowance_lines sources (put_all (map (allowance_line source) source.allowances) s)

abbrev pub mac_rules : ℕ → String → String
mac_rules address mac = concat (
    "    ip saddr "
    ∷ ip_text address
    ∷ " ether saddr != "
    ∷ mac
    ∷ " counter name isolation_spoofed drop\n    arp saddr ip "
    ∷ ip_text address
    ∷ " ether saddr != "
    ∷ mac
    ∷ " counter name isolation_spoofed drop\n"
    ∷ [])

abbrev pub address_rules : ℕ → String → String
address_rules address mac = concat (
    "    ether saddr "
    ∷ mac
    ∷ " ip saddr != "
    ∷ ip_text address
    ∷ " counter name isolation_spoofed drop\n    ether saddr "
    ∷ mac
    ∷ " arp saddr ip != { "
    ∷ ip_text address
    ∷ ", 0.0.0.0 } counter name isolation_spoofed drop\n"
    ∷ [])

abbrev pub is_gateway : Option ℕ → ℕ → Bool
is_gateway none address = false
is_gateway (some gateway) address = gateway == address

-- The MAC that a participant's rules name.
abbrev pub mac_of_participant : IsolationParticipant → Option String
mac_of_participant p = elim p.mac [ none ↦ none | some raw ↦ normalize_mac raw ]

-- The gateway's MAC is not held to its own address.
abbrev pub binding_rules : Option ℕ → ℕ → Option String → String
binding_rules gateway address none = ""
binding_rules gateway address (some mac) =
    append (mac_rules address mac)
      (if is_gateway gateway address then "" else address_rules address mac)

abbrev pub all_binding_rules : Option ℕ → List IsolationParticipant → String
all_binding_rules gateway [] = ""
all_binding_rules gateway (p ∷ ps) =
    append (binding_rules gateway p.ipv4_address (mac_of_participant p))
      (all_binding_rules gateway ps)

-- The addresses that are bound to a MAC.
unfoldable pub bound_addresses : List IsolationParticipant → Set ℕ → Set ℕ
bound_addresses [] s = s
bound_addresses (p ∷ ps) s =
    bound_addresses ps (if is_some (mac_of_participant p) then put p.ipv4_address s else s)

abbrev pub range_rules : String → List String → String
range_rules range [] = concat (
    "    ip saddr " ∷ range ∷ " counter name isolation_spoofed drop\n    arp saddr ip " ∷ range
    ∷ " counter name isolation_spoofed drop\n" ∷ [])
range_rules range (member ∷ members) =
    let all : String = join ", " (member ∷ members) in
    concat (
      "    ip saddr " ∷ range ∷ " ip saddr != { " ∷ all
      ∷ " } counter name isolation_spoofed drop\n    arp saddr ip " ∷ range ∷ " arp saddr ip != { "
      ∷ all ∷ " } counter name isolation_spoofed drop\n" ∷ [])

module _ {Net Net6 : Type 0} (nets : Networks Net Net6) where
  abbrev pub range_of : Option String → Option Net
  range_of none = none
  range_of (some range) = nets.parse range

  -- The members of the range that are bound.
  unfoldable pub members_of : Net → List IsolationParticipant → List ℕ
  unfolding bound_addresses
  members_of range participants =
      keep (nets.net_contains range) (entries (bound_addresses participants []))

  unfoldable pub render_address_bindings : IsolationPolicy → String
  unfolding members_of
  render_address_bindings policy = elim (range_of policy.bound_range) [
    | none ↦ ""
    | some range ↦
        append (all_binding_rules policy.gateway_address policy.participants)
          (range_rules (nets.net_text range) (map ip_text (members_of range policy.participants)))
  ]

  abbrev pub ipv6_text : IsolationMode → Net6 → String
  ipv6_text mode subnet = concat (
      "    icmpv6 type { nd-neighbor-solicit, nd-neighbor-advert, packet-too-big, destination-unreachable } accept\n    ip6 saddr { "
      ∷ nets.net6_text subnet
      ∷ ", fe80::/10 } ip6 daddr { "
      ∷ nets.net6_text subnet
      ∷ ", fe80::/10, ff00::/8 } counter name isolation_unresolved "
      ∷ verdict mode
      ∷ "\n"
      ∷ [])

  abbrev pub ipv6_rules : IsolationMode → Option String → Option String
  ipv6_rules mode none = some ""
  ipv6_rules mode (some subnet) = elim (nets.parse6 subnet) [
    | none ↦ none
    | some net ↦ some (ipv6_text mode net)
  ]

  abbrev pub objects_of : IsolationPolicy → Map String CounterValue → String
  objects_of policy counters =
      append
        (concat (map (pair_object counters) (all_pairs policy.participants policy.participants)))
        (append
          (counter_line "isolation_unresolved"
            (counter_or_default (lookup "isolation_unresolved" counters)))
          (if is_some policy.bound_range
            then counter_line "isolation_spoofed"
                (counter_or_default (lookup "isolation_spoofed" counters))
            else ""))

  unfoldable pub table_text :
      IsolationMode → IsolationPolicy → Map String CounterValue → Net → ℕ → String → String
  unfolding render_address_bindings
  table_text mode policy counters subnet bridge_gateway ipv6 = concat (
      "table bridge egressy_isolation {\n"
      ∷ objects_of policy counters
      ∷ "  chain forward {\n    type filter hook forward priority -10; policy accept;\n"
      ∷ render_address_bindings policy
      ∷ "    ct state established,related accept\n    ct status dnat accept\n    ip saddr "
      ∷ ip_text bridge_gateway
      ∷ " ip daddr "
      ∷ ip_text (nets.broadcast subnet)
      ∷ " accept\n"
      ∷ concat (entries (allowance_lines policy.participants []))
      ∷ concat (map (pair_rule mode) (all_pairs policy.participants policy.participants))
      ∷ "    ip saddr "
      ∷ nets.net_text subnet
      ∷ " ip daddr "
      ∷ nets.net_text subnet
      ∷ " counter name isolation_unresolved "
      ∷ verdict mode
      ∷ "\n"
      ∷ ipv6
      ∷ "  }\n}\n"
      ∷ [])

  -- What a mode that is not disabled renders.
  unfoldable pub draw :
      IsolationMode → IsolationPolicy → Map String CounterValue → Option (IsolationMode × String)
  draw mode policy counters = elim (nets.parse policy.subnet) [
    | none ↦ none
    | some subnet ↦ elim (nets.first_host subnet) [
      | none ↦ none
      | some bridge_gateway ↦ elim (ipv6_rules mode policy.ipv6_subnet) [
        | none ↦ none
        | some ipv6 ↦ some (mode, table_text mode policy counters subnet bridge_gateway ipv6)
      ]
    ]
  ]

  unfoldable pub render_in :
      IsolationMode → IsolationPolicy → Map String CounterValue → Option (IsolationMode × String)
  unfolding draw
  render_in disabled policy counters = some (disabled, "")
  render_in mode policy counters = draw mode policy counters

  unfoldable pub render_bridge_policy :
      IsolationPolicy → IsolationMode → Map String CounterValue → Option (IsolationMode × String)
  unfolding effective_mode_of render_in
  render_bridge_policy policy requested_mode counters =
      render_in (effective_mode_of requested_mode policy.eligible_for_enforcement) policy counters
