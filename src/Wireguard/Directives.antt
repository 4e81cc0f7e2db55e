-- ===== src/Wireguard/Directives.antt =====
-- src/wireguard.rs: what a directive of a section does to the profile.
use egressy.Base.{
  ℕ, zero, suc, ◌+◌, String, Bool, not, ◌&&◌, List, [], ◌∷◌, append, concat, decimal, lower, str_eq,
  if◌then◌else◌, u16_max, Key, any, ◌==◌,
}
use egressy.Base.Results.{Result, ok, err, ◌>>=◌}
use egressy.Wireguard.{
  ProfileError, error_at, general, Interface, Peer, WireGuardProfile, Addresses, parse_secret,
  set_once, set_string_once, extend_unique, parse_list, parse_number, parse_endpoint,
}

-- `Peer[n].name`, counted from one.
abbrev pub peer_field : ℕ → String → String
peer_field index name = concat ("Peer[" ∷ decimal (index + 1) ∷ "]." ∷ name ∷ [])

abbrev pub one_of : List ℕ → Result ProfileError ℕ
one_of [] = err (general "exactly one peer must route 0.0.0.0/0; none do")
one_of (index ∷ []) = ok index
one_of (index ∷ other ∷ more) =
    err (general "exactly one peer must route 0.0.0.0/0; routing is ambiguous")

module _ {Net Addr : Type 0} ⦃kn : Key Net⦄ ⦃ka : Key Addr⦄ (ips : Addresses Net Addr) where
  unfoldable pub parse_interface :
      Interface Net Addr → String → String → ℕ → Result ProfileError (Interface Net Addr)
  parse_interface i key value line =
      let directive = lower key in
      if str_eq directive "privatekey"
      then (do
        secret ← parse_secret value "Interface.PrivateKey" line
        set ← set_once i.private_key secret "Interface.PrivateKey" line
        ok (record i { private_key = set }))
      else (if str_eq directive "address"
          then (do
            nets ← parse_list ips.parse_net value "Interface.Address" line
            all ← extend_unique i.addresses nets "Interface.Address" line
            ok (record i { addresses = all }))
          else (if str_eq directive "dns"
              then (do
                addrs ← parse_list ips.parse_addr value "Interface.DNS" line
                all ← extend_unique i.dns addrs "Interface.DNS" line
                ok (record i { dns = all }))
              else (if str_eq directive "listenport"
                  then (do
                    n ← parse_number value "Interface.ListenPort" line 1 u16_max
                    set ← set_once i.listen_port n "Interface.ListenPort" line
                    ok (record i { listen_port = set }))
                  else (if str_eq directive "mtu"
                      then (do
                        n ← parse_number value "Interface.MTU" line 576 u16_max
                        set ← set_once i.mtu n "Interface.MTU" line
                        ok (record i { mtu = set }))
                      else err (error_at (append "Interface." key) line "unknown directive")))))

  unfoldable pub parse_peer_directive :
      Peer Net → ℕ → String → String → ℕ → Result ProfileError (Peer Net)
  parse_peer_directive p index key value line =
      let directive = lower key in
      if str_eq directive "publickey"
      then (do
        set ← set_string_once p.public_key value (peer_field index "PublicKey") line
        ok (record p { public_key = set }))
      else (if str_eq directive "presharedkey"
          then (do
            secret ← parse_secret value "Peer.PresharedKey" line
            set ← set_once p.preshared_key secret (peer_field index "PresharedKey") line
            ok (record p { preshared_key = set }))
          else (if str_eq directive "endpoint"
              then (do
                e ← parse_endpoint ips.parse_socket value (peer_field index "Endpoint") line
                set ← set_once p.endpoint e (peer_field index "Endpoint") line
                ok (record p { endpoint = set }))
              else (if str_eq directive "allowedips"
                  then (do
                    nets ← parse_list ips.parse_net value (peer_field index "AllowedIPs") line
                    all ← extend_unique p.allowed_ips nets (peer_field index "AllowedIPs") line
                    ok (record p { allowed_ips = all }))
                  else (if str_eq directive "persistentkeepalive"
                      then (do
                        n ←
                            parse_number value (peer_field index "PersistentKeepalive") line 0
                              u16_max
                        set ←
                            set_once p.persistent_keepalive n
                              (peer_field index "PersistentKeepalive") line
                        ok (record p { persistent_keepalive = set }))
                      else err (error_at (peer_field index key) line "unknown directive")))))

  -- At the peer's place, which stands: a section's index is of a peer that was pushed.
  unfoldable pub at_peer :
      ℕ → ℕ → String → String → ℕ → List (Peer Net) → Result ProfileError (List (Peer Net))
  at_peer place index key value line [] = ok []
  at_peer zero index key value line (p ∷ ps) =
      parse_peer_directive p index key value line >>= λ q. ok (q ∷ ps)
  at_peer (suc place) index key value line (p ∷ ps) =
      let rest = at_peer place index key value line ps in rest >>= λ qs. ok (p ∷ qs)

  unfoldable pub parse_peer :
      WireGuardProfile Net Addr
      → ℕ
      → String
      → String
      → ℕ
      → Result ProfileError (WireGuardProfile Net Addr)
  parse_peer profile index key value line =
      at_peer index index key value line profile.peers >>= λ ps. ok (record profile { peers = ps })

  abbrev pub is_ipv4_default : Net → Bool
  is_ipv4_default net = not (ips.net_is_ipv6 net) && ips.prefix_len net == 0

  -- The peers that route everything of IPv4, counted from an index.
  unfoldable pub default_peers : ℕ → List (Peer Net) → List ℕ
  default_peers index [] = []
  default_peers index (p ∷ ps) =
      let rest = default_peers (suc index) ps in
      if any is_ipv4_default p.allowed_ips then index ∷ rest else rest

  unfoldable pub full_tunnel_peer : WireGuardProfile Net Addr → Result ProfileError ℕ
  full_tunnel_peer profile = one_of (default_peers 0 profile.peers)
