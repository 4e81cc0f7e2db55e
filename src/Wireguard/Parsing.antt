-- ===== src/Wireguard/Parsing.antt =====
-- src/wireguard.rs: WireGuardProfile::parse. The reading of UTF-8 is the standard library's.
use egressy.Base.{
  ℕ, suc, ◌+◌, String, Bool, true, false, not, ◌&&◌, Option, none, some, List, [], ◌∷◌, ◌++◌,
  concat, decimal, lower, str_eq, trim, lines, split_once, is_empty, starts_with_char, length, ltb,
  ◌==◌, if◌then◌else◌, is_some, Key,
}
use egressy.Base.Results.{Result, ok, err, ◌>>=◌, ◌>>◌, ensure, ok_or}
use egressy.Wireguard.{
  ProfileError, error_at, general, Interface, Peer, WireGuardProfile, Addresses,
  reject_owned_or_dangerous, max_profile_bytes, max_peers,
}
use egressy.Wireguard.Directives.{parse_interface, parse_peer, full_tunnel_peer}

pub data Section : Type 0 where
  interface : Section
  peer : ℕ → Section

pub record Parsing (Net Addr : Type 0) : Type 0 where
  pub profile : WireGuardProfile Net Addr
  pub section : Option Section
  pub interface_seen : Bool

abbrev pub default_interface : {Net Addr : Type 0} → Interface Net Addr
default_interface = record {
  private_key = none;
  addresses = [];
  dns = [];
  listen_port = none;
  mtu = none;
}

abbrev pub default_peer : {Net : Type 0} → Peer Net
default_peer = record {
  public_key = "";
  preshared_key = none;
  endpoint = none;
  allowed_ips = [];
  persistent_keepalive = none;
}

abbrev pub at_start : {Net Addr : Type 0} → Parsing Net Addr
at_start = record {
  profile = record { interface = default_interface; peers = [] };
  section = none;
  interface_seen = false;
}

abbrev pub none_left : {A : Type 0} → List A → Bool
none_left [] = true
none_left (x ∷ xs) = false

-- What stands before a comment.
abbrev pub uncommented : String → String
uncommented raw = elim (split_once 35 raw) [ none ↦ raw | some (before, comment) ↦ before ]

abbrev pub unless_missing :
    Option ProfileError → Result ProfileError (Unit {0}) → Result ProfileError (Unit {0})
unless_missing none rest = rest
unless_missing (some e) rest = err e

module _ {Net : Type 0} where
  abbrev pub missing_of : Peer Net → ℕ → Option ProfileError
  missing_of p number =
      if is_empty p.public_key
      then some (general (concat ("Peer " ∷ decimal number ∷ " is missing PublicKey" ∷ [])))
      else (if none_left p.allowed_ips
          then some (general (concat ("Peer " ∷ decimal number ∷ " is missing AllowedIPs" ∷ [])))
          else none)

  -- The peers, counted from one.
  unfoldable pub check_peers : ℕ → List (Peer Net) → Result ProfileError (Unit {0})
  check_peers index [] = ok tt
  check_peers index (p ∷ ps) =
      let rest = check_peers (suc index) ps in unless_missing (missing_of p (index + 1)) rest

module _ {Net Addr : Type 0} where
  abbrev pub with_peer : Parsing Net Addr → Parsing Net Addr
  with_peer s = record s {
    profile = record s.profile { peers = s.profile.peers ++ (default_peer ∷ []) };
    section = some (peer (length s.profile.peers));
  }

  unfoldable pub open_section :
      String → ℕ → Parsing Net Addr → Result ProfileError (Parsing Net Addr)
  open_section line number s =
      let header = lower line in
      if str_eq header "[interface]"
      then (if not s.interface_seen && none_left s.profile.peers
          then ok (record s { interface_seen = true; section = some interface })
          else err (
              error_at "section" number "exactly one [Interface] section must appear before peers"))
      else (if str_eq header "[peer]"
          then (if s.interface_seen
              then (if length s.profile.peers == max_peers
                  then err (error_at "section" number "profile exceeds the 32-peer limit")
                  else ok (with_peer s))
              else err (error_at "section" number "[Interface] must appear before [Peer]"))
          else err (error_at "section" number "unknown or malformed section"))

module _ {Net Addr : Type 0} ⦃kn : Key Net⦄ ⦃ka : Key Addr⦄ (ips : Addresses Net Addr) where
  abbrev pub with_directive :
      Section → String → String → ℕ → Parsing Net Addr → Result ProfileError (Parsing Net Addr)
  with_directive interface key value number s =
      parse_interface ips s.profile.interface key value number >>= λ i.
      ok (record s { profile = record s.profile { interface = i } })
  with_directive (peer index) key value number s =
      parse_peer ips s.profile index key value number >>= λ p. ok (record s { profile = p })

  unfoldable pub parse_directive :
      String → ℕ → Parsing Net Addr → Result ProfileError (Parsing Net Addr)
  parse_directive line number s = do
    current ← ok_or s.section (error_at "section" number "directive appears outside a section")
    (key, value) ←
        ok_or (split_once 61 line) (error_at "directive" number "directive must contain '='")
    reject_owned_or_dangerous (trim key) number
    with_directive current (trim key) (trim value) number s

  unfoldable pub parse_line : String → ℕ → Parsing Net Addr → Result ProfileError (Parsing Net Addr)
  parse_line raw number s =
      let line = trim (uncommented raw) in
      if is_empty line
      then ok s
      else (if starts_with_char 91 line
          then open_section line number s
          else parse_directive line number s)

  unfoldable pub parse_lines :
      List String → ℕ → Parsing Net Addr → Result ProfileError (Parsing Net Addr)
  parse_lines [] number s = ok s
  parse_lines (raw ∷ more) number s = parse_line raw number s >>= parse_lines more (suc number)

  unfoldable pub finish : Parsing Net Addr → Result ProfileError (WireGuardProfile Net Addr)
  finish s = do
    ensure s.interface_seen (general "profile has no [Interface] section")
    ensure (not (none_left s.profile.peers)) (general "profile has no [Peer] section")
    ensure (is_some s.profile.interface.private_key) (general "Interface.PrivateKey is required")
    check_peers 0 s.profile.peers
    full_tunnel_peer ips s.profile >>= λ index. ok s.profile

  unfoldable pub parse_text : String → Result ProfileError (WireGuardProfile Net Addr)
  parse_text source = parse_lines (lines source) 1 at_start >>= finish

  unfoldable pub parse :
      (List ℕ → Option String) → List ℕ → Result ProfileError (WireGuardProfile Net Addr)
  parse from_utf8 source = do
    ensure (not (ltb max_profile_bytes (length source)))
        (general "profile exceeds the 256 KiB limit")
    text ← ok_or (from_utf8 source) (general "profile must be valid UTF-8")
    parse_text text
