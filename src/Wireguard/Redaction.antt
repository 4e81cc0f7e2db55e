-- ===== src/Wireguard/Redaction.antt =====
-- src/wireguard.rs: what of a profile is shown, WireGuardProfile::redacted.
use egressy.Base.{
  ℕ, String, Bool, true, false, Option, none, some, List, [], ◌∷◌, ◌++◌, map, any, length, is_some,
  Key,
}
use egressy.Base.Results.{to_option}
use egressy.Wireguard.{
  Interface, Peer, Endpoint, WireGuardProfile, Addresses, ApplyKind, tunnel_recycle,
}
use egressy.Wireguard.Directives.{full_tunnel_peer}
use egressy.Wireguard.Changes.{diff}

pub record RedactedInterface : Type 0 where
  pub private_key_configured : Bool
  pub addresses : List String
  pub dns : List String
  pub listen_port : Option ℕ
  pub mtu : Option ℕ

pub record RedactedPeer : Type 0 where
  pub public_key : String
  pub preshared_key_configured : Bool
  pub endpoint : Option Endpoint
  pub allowed_ips : List String
  pub persistent_keepalive : Option ℕ

pub record ProfileWarning : Type 0 where
  pub code : String
  pub field : String
  pub message : String

pub record RedactedProfile : Type 0 where
  pub interface : RedactedInterface
  pub peers : List RedactedPeer
  pub peer_count : ℕ
  pub ipv4_full_tunnel : Bool
  pub full_tunnel_peer : Option ℕ
  pub warnings : List ProfileWarning
  pub apply_kind : ApplyKind

abbrev pub warn : Bool → String → String → String → List ProfileWarning
warn true code field message = record { code = code; field = field; message = message } ∷ []
warn false code field message = []

module _ {Net Addr : Type 0} ⦃kn : Key Net⦄ ⦃ka : Key Addr⦄ (ips : Addresses Net Addr) where
  abbrev pub redact_interface : Interface Net Addr → RedactedInterface
  redact_interface i = record {
    private_key_configured = is_some i.private_key;
    addresses = map ips.net_text i.addresses;
    dns = map ips.addr_text i.dns;
    listen_port = i.listen_port;
    mtu = i.mtu;
  }

  abbrev pub redact_peer : Peer Net → RedactedPeer
  redact_peer p = record {
    public_key = p.public_key;
    preshared_key_configured = is_some p.preshared_key;
    endpoint = p.endpoint;
    allowed_ips = map ips.net_text p.allowed_ips;
    persistent_keepalive = p.persistent_keepalive;
  }

  abbrev pub routes_ipv6 : Peer Net → Bool
  routes_ipv6 p = any ips.net_is_ipv6 p.allowed_ips

  abbrev pub warnings_of : WireGuardProfile Net Addr → List ProfileWarning
  warnings_of profile =
      warn (any ips.net_is_ipv6 profile.interface.addresses) "ipv6_interface_unprotected"
        "Interface.Address"
        "IPv6 interface addresses are preserved, but enrolled clients use them only when network.ipv6 is enabled"
      ++ (warn (any ips.addr_is_ipv6 profile.interface.dns) "ipv6_dns_unsupported" "Interface.DNS"
            "IPv6 DNS servers cannot be used by the IPv4-only DNS forwarder"
          ++ warn (any routes_ipv6 profile.peers) "ipv6_routes_unprotected" "Peer.AllowedIPs"
              "IPv6 allowed ranges are preserved, but enrolled clients use them only when network.ipv6 is enabled")

  abbrev pub kind_of : Option (WireGuardProfile Net Addr) → WireGuardProfile Net Addr → ApplyKind
  kind_of none profile = tunnel_recycle
  kind_of (some old) profile = diff ips old profile

  unfoldable pub redacted :
      Option (WireGuardProfile Net Addr) → WireGuardProfile Net Addr → RedactedProfile
  redacted active profile =
      let routing = to_option (full_tunnel_peer ips profile) in
      record {
        interface = redact_interface profile.interface;
        peers = map redact_peer profile.peers;
        peer_count = length profile.peers;
        ipv4_full_tunnel = is_some routing;
        full_tunnel_peer = routing;
        warnings = warnings_of profile;
        apply_kind = kind_of active profile;
      }
