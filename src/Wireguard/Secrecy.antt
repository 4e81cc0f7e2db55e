-- ===== src/Wireguard/Secrecy.antt =====
-- The redaction of src/wireguard.rs shows no secret.
use egressy.Base.{
  ℕ, suc, ◌≡◌, refl, String, Option, none, some, List, [], ◌∷◌, map, any, length, is_some, Key,
  arith,
}
use egressy.Wireguard.{Peer, WireGuardProfile, Addresses}
use egressy.Wireguard.Directives.{default_peers, full_tunnel_peer}
use egressy.Wireguard.Redaction.{redact_peer, routes_ipv6, kind_of, redacted}

abbrev pub replaced : (String → String) → Option String → Option String
replaced other none = none
replaced other (some secret) = some (other secret)

is_some-replaced :
    (other : String → String) (s : Option String) → is_some (replaced other s) ≡ is_some s
is_some-replaced other none = refl
is_some-replaced other (some secret) = refl

module _ {Net : Type 0} where
  abbrev pub other_key : (String → String) → Peer Net → Peer Net
  other_key other p = record p { preshared_key = replaced other p.preshared_key }

  length-other_key :
      (other : String → String) (ps : List (Peer Net))
      → length (map (other_key other) ps) ≡ length ps
  length-other_key other [] = refl
  length-other_key other (p ∷ ps) = ground (arith, length-other_key other ps)

module _ {Net Addr : Type 0} where
  -- The profile with every secret replaced.
  abbrev pub other_secrets :
      (String → String) → WireGuardProfile Net Addr → WireGuardProfile Net Addr
  other_secrets other profile = record {
    interface = record profile.interface {
      private_key = replaced other profile.interface.private_key;
    };
    peers = map (other_key other) profile.peers;
  }

module _ {Net Addr : Type 0} ⦃kn : Key Net⦄ ⦃ka : Key Addr⦄ (ips : Addresses Net Addr) where
  default_peers-other_key :
      (other : String → String) (index : ℕ) (ps : List (Peer Net))
      → default_peers ips index (map (other_key other) ps) ≡ default_peers ips index ps
  unfolding default_peers
  default_peers-other_key other index [] = refl
  default_peers-other_key other index (p ∷ ps) = rw (default_peers-other_key other (suc index) ps)

  any-other_key :
      (other : String → String) (ps : List (Peer Net))
      → any (routes_ipv6 ips) (map (other_key other) ps) ≡ any (routes_ipv6 ips) ps
  any-other_key other [] = refl
  any-other_key other (p ∷ ps) = rw (any-other_key other ps)

  map-other_key :
      (other : String → String) (ps : List (Peer Net))
      → map (redact_peer ips) (map (other_key other) ps) ≡ map (redact_peer ips) ps
  map-other_key other [] = refl
  map-other_key other (p ∷ ps) = rw (map-other_key other ps, is_some-replaced other p.preshared_key)

  -- The redaction is the same whatever the secrets are: replacing the private key and every preshared
  -- key by others changes at most the kind of the change against the active profile.
  pub redacted-other_secrets :
      (other : String → String) (active : Option (WireGuardProfile Net Addr))
      (profile : WireGuardProfile Net Addr)
      → redacted ips active (other_secrets other profile) ≡ record (redacted ips active profile) {
        apply_kind = kind_of ips active (other_secrets other profile);
      }
  unfolding redacted full_tunnel_peer
  redacted-other_secrets other active profile = rw (
    map-other_key other profile.peers,
    length-other_key other profile.peers,
    any-other_key other profile.peers,
    default_peers-other_key other 0 profile.peers,
    is_some-replaced other profile.interface.private_key,
  )
