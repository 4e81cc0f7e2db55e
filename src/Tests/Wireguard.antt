-- ===== src/Tests/Wireguard.antt =====
-- A profile of src/wireguard.rs with one peer, and the same with another DNS server.
use egressy.Base.{
  ◌≡◌, refl, String, false, none, some, List, [], ◌∷◌, str_eq, string_key, if◌then◌else◌, lines,
  trim, split_once, lower, decimal, split, lower_at, lower_char,
}
use egressy.Base.Results.{ok}
use egressy.Wireguard.{
  WireGuardProfile, Addresses, Peer, dns_reload, tunnel_recycle, reject_owned_or_dangerous,
  parse_secret, set_once, parse_list, parse_each, extend_unique, push_unique, set_string_once,
}
use egressy.Wireguard.Directives.{
  parse_interface, at_peer, default_peers, full_tunnel_peer, parse_peer, parse_peer_directive,
}
use egressy.Wireguard.Parsing.{
  parse, parse_text, parse_lines, parse_line, open_section, parse_directive, check_peers, finish,
}
use egressy.Wireguard.Changes.{diff, render, peers_equal}
use egressy.Wireguard.Kinds.{Kept, diff_keeps}
use egressy.Wireguard.Redaction.{redacted}
use egressy.Wireguard.Secrecy.{other_secrets, redacted-other_secrets}
use egressy.Wireguard.Accepted.{IsAccepted, parse-IsAccepted}

-- Networks and addresses as their text.
abbrev texts : Addresses String String
texts = record {
  parse_net = λ s. some s;
  parse_addr = λ s. some s;
  parse_socket = λ s. none;
  net_text = λ s. s;
  addr_text = λ s. s;
  net_is_ipv6 = λ s. false;
  prefix_len = λ s. if str_eq s "0.0.0.0/0" then 0 else 32;
  addr_is_ipv6 = λ s. false;
}

abbrev source_text : String
source_text =
    "[Interface]\nPrivateKey = secret\nDNS = 10.2.0.1\n[Peer]\nPublicKey = key # theirs\nAllowedIPs = 0.0.0.0/0\n"

abbrev only_peer : Peer String
only_peer = record {
  public_key = "key";
  preshared_key = none;
  endpoint = none;
  allowed_ips = "0.0.0.0/0" ∷ [];
  persistent_keepalive = none;
}

abbrev profile_with : List String → WireGuardProfile String String
profile_with servers = record {
  interface = record {
    private_key = some "secret";
    addresses = [];
    dns = servers;
    listen_port = none;
    mtu = none;
  };
  peers = only_peer ∷ [];
}

parse_source_text :
    parse texts (λ bytes. some source_text) (91 ∷ []) ≡ ok (profile_with ("10.2.0.1" ∷ []))
unfolding parse parse_text parse_lines lines parse_line trim split_once open_section lower
    parse_directive reject_owned_or_dangerous parse_interface parse_secret set_once parse_list
    parse_each extend_unique push_unique decimal split at_peer default_peers full_tunnel_peer
    parse_peer parse_peer_directive check_peers finish set_string_once lower_at lower_char
parse_source_text = refl

parse-IsAccepted_example : IsAccepted texts (profile_with ("10.2.0.1" ∷ []))
parse-IsAccepted_example =
    parse-IsAccepted texts (λ bytes. some source_text) (91 ∷ []) (profile_with ("10.2.0.1" ∷ []))
      parse_source_text

diff_keeps_example :
    Kept texts dns_reload (profile_with ("10.2.0.1" ∷ [])) (profile_with ("10.2.0.2" ∷ []))
unfolding diff render peers_equal
diff_keeps_example =
    diff_keeps texts (profile_with ("10.2.0.1" ∷ [])) (profile_with ("10.2.0.2" ∷ []))

redacted-other_secrets_example :
    redacted texts none (other_secrets (λ s. "other") (profile_with ("10.2.0.1" ∷ [])))
    ≡ record (redacted texts none (profile_with ("10.2.0.1" ∷ []))) { apply_kind = tunnel_recycle }
redacted-other_secrets_example =
    redacted-other_secrets texts (λ s. "other") none (profile_with ("10.2.0.1" ∷ []))
