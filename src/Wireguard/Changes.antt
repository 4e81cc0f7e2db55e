-- ===== src/Wireguard/Changes.antt =====
-- src/wireguard.rs: a profile as text, and how a running tunnel takes a new profile over.
use egressy.Base.{
  ℕ, String, Bool, true, false, not, ◌&&◌, ◌||◌, Option, none, some, List, [], ◌∷◌, concat, decimal,
  join, map, any, keep, length, str_eq, ◌==◌, if◌then◌else◌, Key,
}
use egressy.Wireguard.{
  Peer, Endpoint, WireGuardProfile, Addresses, ApplyKind, no_change, dns_reload, sync_conf,
  sync_conf_and_routes, tunnel_recycle,
}

abbrev pub line_of : String → String → String
line_of key value = concat (key ∷ " = " ∷ value ∷ "\n" ∷ [])

abbrev pub some_line : String → Option String → String
some_line key none = ""
some_line key (some value) = line_of key value

abbrev pub some_number : String → Option ℕ → String
some_number key none = ""
some_number key (some n) = line_of key (decimal n)

abbrev pub list_line : String → List String → String
list_line key [] = ""
list_line key (v ∷ vs) = line_of key (join ", " (v ∷ vs))

abbrev pub endpoint_text : Endpoint → String
endpoint_text e =
    let host =
      if str_eq e.address_family "ipv6" then concat ("[" ∷ e.host ∷ "]" ∷ []) else e.host in
    concat (host ∷ ":" ∷ decimal e.port ∷ [])

abbrev pub endpoint_line : Option Endpoint → String
endpoint_line none = ""
endpoint_line (some e) = line_of "Endpoint" (endpoint_text e)

abbrev pub same_text : Option String → Option String → Bool
same_text none none = true
same_text (some a) (some b) = str_eq a b
same_text _ _ = false

abbrev pub same_number : Option ℕ → Option ℕ → Bool
same_number none none = true
same_number (some a) (some b) = a == b
same_number _ _ = false

abbrev pub endpoint_eq : Endpoint → Endpoint → Bool
endpoint_eq a b =
    str_eq a.host b.host && ((a.port == b.port) && str_eq a.address_family b.address_family)

abbrev pub same_endpoint : Option Endpoint → Option Endpoint → Bool
same_endpoint none none = true
same_endpoint (some a) (some b) = endpoint_eq a b
same_endpoint _ _ = false

abbrev pub same_values : {T : Type 0} ⦃k : Key T⦄ → List T → List T → Bool
same_values [] [] = true
same_values ⦃k⦄ (x ∷ xs) (y ∷ ys) = let rest = same_values xs ys in k.beq x y && rest
same_values _ _ = false

module _ {Net Addr : Type 0} (ips : Addresses Net Addr) where
  abbrev pub peer_text : Peer Net → String
  peer_text p = concat (
      "\n[Peer]\n"
      ∷ line_of "PublicKey" p.public_key
      ∷ some_line "PresharedKey" p.preshared_key
      ∷ endpoint_line p.endpoint
      ∷ line_of "AllowedIPs" (join ", " (map ips.net_text p.allowed_ips))
      ∷ some_number "PersistentKeepalive" p.persistent_keepalive
      ∷ [])

  abbrev pub peers_text : List (Peer Net) → String
  peers_text ps = concat (map peer_text ps)

  -- The profile with what stands in the place of the table's line.
  abbrev pub render_with : String → WireGuardProfile Net Addr → String
  render_with table profile =
      let i = profile.interface in
      concat (
        "[Interface]\n"
        ∷ some_line "PrivateKey" i.private_key
        ∷ list_line "Address" (map ips.net_text i.addresses)
        ∷ table
        ∷ some_number "ListenPort" i.listen_port
        ∷ some_number "MTU" i.mtu
        ∷ peers_text profile.peers
        ∷ [])

  unfoldable pub render : WireGuardProfile Net Addr → String
  render profile = render_with "Table = off\n" profile

  unfoldable pub render_syncconf : WireGuardProfile Net Addr → String
  render_syncconf profile = concat (
      "[Interface]\n"
      ∷ some_line "PrivateKey" profile.interface.private_key
      ∷ some_number "ListenPort" profile.interface.listen_port
      ∷ peers_text profile.peers
      ∷ [])

  unfoldable pub carries_ipv6 : WireGuardProfile Net Addr → Bool
  carries_ipv6 profile =
      any ips.net_is_ipv6 profile.interface.addresses
      && any (λ p. any (λ net. ips.net_is_ipv6 net && ips.prefix_len net == 0) p.allowed_ips)
          profile.peers

  -- The servers that are of IPv4.
  unfoldable pub ipv4_dns : WireGuardProfile Net Addr → List Addr
  ipv4_dns profile = keep (λ address. not (ips.addr_is_ipv6 address)) profile.interface.dns

module _ {Net : Type 0} ⦃kn : Key Net⦄ where
  abbrev pub peer_eq : Peer Net → Peer Net → Bool
  peer_eq a b =
      str_eq a.public_key b.public_key
      && (same_text a.preshared_key b.preshared_key
          && (same_endpoint a.endpoint b.endpoint
              && (same_values a.allowed_ips b.allowed_ips
                  && same_number a.persistent_keepalive b.persistent_keepalive)))

  unfoldable pub peers_equal : List (Peer Net) → List (Peer Net) → Bool
  peers_equal [] [] = true
  peers_equal (a ∷ more) (b ∷ bs) = let rest = peers_equal more bs in peer_eq a b && rest
  peers_equal _ _ = false

  -- Whether some peer's ranges changed, of the pairs that both lists have.
  abbrev pub ranges_change : List (Peer Net) → List (Peer Net) → Bool
  ranges_change (a ∷ more) (b ∷ bs) =
      let rest = ranges_change more bs in not (same_values a.allowed_ips b.allowed_ips) || rest
  ranges_change _ _ = false

-- The tests of `diff` in its order: the same text and DNS, the same device, the same peers, as many
-- peers, other ranges.
abbrev pub decide : Bool → Bool → Bool → Bool → Bool → ApplyKind
decide same device peers count ranges =
    if same
    then no_change
    else (if device && peers
        then dns_reload
        else (if not device || not count
            then tunnel_recycle
            else (if ranges then sync_conf_and_routes else sync_conf)))

module _ {Net Addr : Type 0} ⦃kn : Key Net⦄ ⦃ka : Key Addr⦄ (ips : Addresses Net Addr) where
  -- What the device itself has, and not one of its peers.
  abbrev pub same_device : WireGuardProfile Net Addr → WireGuardProfile Net Addr → Bool
  same_device a b =
      same_text a.interface.private_key b.interface.private_key
      && (same_values a.interface.addresses b.interface.addresses
          && (same_number a.interface.listen_port b.interface.listen_port
              && same_number a.interface.mtu b.interface.mtu))

  unfoldable pub diff : WireGuardProfile Net Addr → WireGuardProfile Net Addr → ApplyKind
  diff a b =
      decide (str_eq (render ips a) (render ips b) && same_values a.interface.dns b.interface.dns)
        (same_device a b) (peers_equal a.peers b.peers) (length a.peers == length b.peers)
        (ranges_change a.peers b.peers)
