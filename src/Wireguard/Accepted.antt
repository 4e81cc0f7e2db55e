-- ===== src/Wireguard/Accepted.antt =====
-- What a profile that src/wireguard.rs accepts is.
use egressy.Base.{
  ℕ, u16_max, zero, suc, ◌≡◌, refl, subst, inl, inr, ◌≤◌, ◌+◌, String, Bool, true, false, not,
  Option, List, [], ◌∷◌, ◌++◌, length, length-append, All, append-All, str_eq, lower, byte_len,
  is_empty, ltb, is_some, trim, split_once, starts_with_char, lines, arith, Bool-cases,
  if◌then◌else◌, Key,
}
use egressy.Base.Results.{ok, ok_or, ensure, bind_ok, ok_injective}
use egressy.Wireguard.{
  ProfileError, error_at, general, Peer, WireGuardProfile, Addresses, set_string_once, push_unique,
  contains_value, extend_unique, max_list_values, max_profile_bytes, set_once, parse_list,
  parse_secret, parse_number, parse_endpoint, reject_owned_or_dangerous,
}
use egressy.Wireguard.Directives.{
  parse_interface, parse_peer_directive, at_peer, parse_peer, default_peers, full_tunnel_peer,
  one_of, peer_field,
}
use egressy.Wireguard.Parsing.{
  Parsing, Section, interface, peer, at_start, default_peer, none_left, open_section,
  with_directive, parse_directive, parse_line, parse_lines, uncommented, check_peers, finish,
  parse_text, parse,
}

set_string_once_lem :
    (target value field : String) (line : ℕ) (s : String)
    → set_string_once target value field line ≡ ok s
    → byte_len s ≤ 128
unfolding set_string_once
set_string_once_lem target value field line s e = ground (arith, e)

length-push_unique :
    {T : Type 0} ⦃k : Key T⦄ (target values : List T) (field : String) (line : ℕ) (all : List T)
    → push_unique target values field line ≡ ok all
    → length all ≡ length target + length values
unfolding push_unique
length-push_unique target [] field line all e = ground (arith, e)
length-push_unique target (v ∷ vs) field line all e = elim (Bool-cases (contains_value v target)) [
  | inl twice ↦ absurd (ground (arith, twice, e))
  | inr new ↦ omega (
    arith,
    length-push_unique (target ++ (v ∷ [])) vs field line all (rw (new, push_unique) at e),
    length-append {0} target (v ∷ []),
  )
]

length-extend_unique :
    {T : Type 0} ⦃k : Key T⦄ (target values : List T) (field : String) (line : ℕ) (all : List T)
    → extend_unique target values field line ≡ ok all
    → length all ≤ 128
unfolding extend_unique
length-extend_unique target values field line all e =
    elim (Bool-cases (ltb max_list_values (length target + length values))) [
      | inl over ↦ absurd (ground (arith, over, e))
      | inr fits ↦ ground (
        arith,
        fits,
        length-push_unique target values field line all (rw (fits, extend_unique) at e),
      )
    ]

-- The bounds of a peer that is being read.
abbrev pub PeerWithin : {Net : Type 0} → Peer Net → Type 0
PeerWithin p = (byte_len p.public_key ≤ 128) × (length p.allowed_ips ≤ 128)

module _ {Net Addr : Type 0} ⦃kn : Key Net⦄ ⦃ka : Key Addr⦄ (ips : Addresses Net Addr) where
  parse_peer_directive-PeerWithin :
      (p q : Peer Net) (index : ℕ) (key value : String) (line : ℕ)
      → PeerWithin p
      → parse_peer_directive ips p index key value line ≡ ok q
      → PeerWithin q
  unfolding parse_peer_directive
  parse_peer_directive-PeerWithin p q index key value line w e =
      elim (Bool-cases (str_eq (lower key) "publickey")) [
        | inl b1 ↦
            let (set, is_set, done) =
              bind_ok (set_string_once p.public_key value (peer_field index "PublicKey") line) _ q
                (rw (b1, parse_peer_directive) at e) in
            ground (
              arith,
              done,
              w,
              set_string_once_lem p.public_key value (peer_field index "PublicKey") line set is_set,
            )
        | inr b1 ↦ elim (Bool-cases (str_eq (lower key) "presharedkey")) [
          | inl b2 ↦
              let (secret, is_secret, then_) =
                bind_ok (parse_secret value "Peer.PresharedKey" line) _ q
                  (rw b2 at (rw (b1, parse_peer_directive) at e)) in
              let (set, is_set, done) =
                bind_ok (set_once p.preshared_key secret (peer_field index "PresharedKey") line) _ q
                  then_ in
              ground (arith, done, w)
          | inr b2 ↦ elim (Bool-cases (str_eq (lower key) "endpoint")) [
            | inl b3 ↦
                let (end_, is_end, then_) =
                  bind_ok (parse_endpoint ips.parse_socket value (peer_field index "Endpoint") line)
                    _ q (rw b3 at (rw b2 at (rw (b1, parse_peer_directive) at e))) in
                let (set, is_set, done) =
                  bind_ok (set_once p.endpoint end_ (peer_field index "Endpoint") line) _ q then_ in
                ground (arith, done, w)
            | inr b3 ↦ elim (Bool-cases (str_eq (lower key) "allowedips")) [
              | inl b4 ↦
                  let (nets, is_nets, then_) =
                    bind_ok (parse_list ips.parse_net value (peer_field index "AllowedIPs") line) _
                      q (rw b4 at (rw b3 at (rw b2 at (rw (b1, parse_peer_directive) at e)))) in
                  let (all, is_all, done) =
                    bind_ok (extend_unique p.allowed_ips nets (peer_field index "AllowedIPs") line)
                      _ q then_ in
                  ground (
                    arith,
                    done,
                    w,
                    length-extend_unique p.allowed_ips nets (peer_field index "AllowedIPs") line all
                        is_all,
                  )
              | inr b4 ↦ elim (Bool-cases (str_eq (lower key) "persistentkeepalive")) [
                | inl b5 ↦
                    let (n, is_n, then_) =
                      bind_ok
                        (parse_number value (peer_field index "PersistentKeepalive") line 0 u16_max)
                        _ q
                        (rw b5 at
                          (rw b4 at (rw b3 at (rw b2 at (rw (b1, parse_peer_directive) at e))))) in
                    let (set, is_set, done) =
                      bind_ok
                        (set_once p.persistent_keepalive n (peer_field index "PersistentKeepalive")
                          line)
                        _ q then_ in
                    ground (arith, done, w)
                | inr b5 ↦ absurd (ground (arith, b1, b2, b3, b4, b5, e))
              ]
            ]
          ]
        ]
      ]

  at_peer-PeerWithin :
      (place index : ℕ) (key value : String) (line : ℕ) (ps qs : List (Peer Net))
      → All PeerWithin ps
      → at_peer ips place index key value line ps ≡ ok qs
      → All PeerWithin qs × (length qs ≡ length ps)
  unfolding at_peer
  at_peer-PeerWithin place index key value line [] [] w e = (tt, refl)
  at_peer-PeerWithin place index key value line [] (q ∷ qs) w e = absurd (ground (arith, e))
  at_peer-PeerWithin zero index key value line (p ∷ ps) qs w e =
      let (q, is_q, done) = bind_ok (parse_peer_directive ips p index key value line) _ qs e in
      let same : q ∷ ps ≡ qs = ground (arith, done) in
      subst (λ l. All PeerWithin l × (length l ≡ length (p ∷ ps))) same
        ((parse_peer_directive-PeerWithin p q index key value line w.0 is_q, w.1), refl)
  at_peer-PeerWithin (suc place) index key value line (p ∷ ps) qs w e =
      let (rs, is_rs, done) = bind_ok (at_peer ips place index key value line ps) _ qs e in
      let ih = at_peer-PeerWithin place index key value line ps rs w.1 is_rs in
      let same : p ∷ rs ≡ qs = ground (arith, done) in
      subst (λ l. All PeerWithin l × (length l ≡ length (p ∷ ps))) same
        ((w.0, ih.0), omega (arith, ih.1))

  -- The bounds of a profile that is being read.
  abbrev pub Within : Parsing Net Addr → Type 0
  Within s = (length s.profile.peers ≤ 32) × All PeerWithin s.profile.peers

  with_directive-Within :
      (section : Section) (key value : String) (number : ℕ) (s t : Parsing Net Addr)
      → Within s
      → with_directive ips section key value number s ≡ ok t
      → Within t
  unfolding parse_peer
  with_directive-Within interface key value number s t w e =
      let (i, is_i, done) =
        bind_ok (parse_interface ips s.profile.interface key value number) _ t e in
      let same : record s { profile = record s.profile { interface = i } } ≡ t =
        ground (arith, done) in
      subst Within same w
  with_directive-Within (peer index) key value number s t w e =
      let (profile, is_profile, done) =
        bind_ok (parse_peer ips s.profile index key value number) _ t e in
      let (ps, is_ps, made) =
        bind_ok (at_peer ips index index key value number s.profile.peers) _ profile is_profile in
      let kept = at_peer-PeerWithin index index key value number s.profile.peers ps w.1 is_ps in
      let first : record s.profile { peers = ps } ≡ profile = ground (arith, made) in
      let same : record s { profile = profile } ≡ t = ground (arith, done) in
      subst Within same
        (subst (λ f. Within (record s { profile = f })) first (omega (arith, kept.1, w.0), kept.0))

  parse_directive-Within :
      (line : String) (number : ℕ) (s t : Parsing Net Addr)
      → Within s
      → parse_directive ips line number s ≡ ok t
      → Within t
  unfolding parse_directive
  parse_directive-Within line number s t w e =
      let (current, is_current, after) =
        bind_ok (ok_or s.section (error_at "section" number "directive appears outside a section"))
          _ t e in
      let ((key, value), is_split, then_) =
        bind_ok
          (ok_or (split_once 61 line) (error_at "directive" number "directive must contain '='")) _
          t after in
      let (u, is_u, done) = bind_ok (reject_owned_or_dangerous (trim key) number) _ t then_ in
      with_directive-Within current (trim key) (trim value) number s t w done

  open_section-Within :
      (line : String) (number : ℕ) (s t : Parsing Net Addr)
      → Within s
      → open_section line number s ≡ ok t
      → Within t
  unfolding open_section
  open_section-Within line number s t w e = ground (
    arith,
    e,
    w,
    length-append {0} s.profile.peers (default_peer ∷ []),
    append-All PeerWithin s.profile.peers (default_peer ∷ []) w.1 ((omega arith, omega arith), tt),
  )

  parse_line-Within :
      (raw : String) (number : ℕ) (s t : Parsing Net Addr)
      → Within s
      → parse_line ips raw number s ≡ ok t
      → Within t
  unfolding parse_line
  parse_line-Within raw number s t w e =
      chosen (is_empty (trim (uncommented raw))) (starts_with_char 91 (trim (uncommented raw))) e
    where
      chosen :
          (b c : Bool)
          → (if b
              then ok s
              else (if c
                  then open_section (trim (uncommented raw)) number s
                  else parse_directive ips (trim (uncommented raw)) number s))
            ≡ ok t
          → Within t
      chosen true c h = subst Within (ok_injective h) w
      chosen false true h = open_section-Within (trim (uncommented raw)) number s t w h
      chosen false false h = parse_directive-Within (trim (uncommented raw)) number s t w h

  parse_lines-Within :
      (raws : List String) (number : ℕ) (s t : Parsing Net Addr)
      → Within s
      → parse_lines ips raws number s ≡ ok t
      → Within t
  unfolding parse_lines
  parse_lines-Within [] number s t w e = subst Within (ok_injective e) w
  parse_lines-Within (raw ∷ more) number s t w e =
      let (u, is_u, done) = bind_ok (parse_line ips raw number s) _ t e in
      parse_lines-Within more (suc number) u t (parse_line-Within raw number s u w is_u) done

  -- A peer of an accepted profile.
  abbrev pub IsPeer : Peer Net → Type 0
  IsPeer p =
      (is_empty p.public_key ≡ false)
      × (byte_len p.public_key ≤ 128)
      × (1 ≤ length p.allowed_ips)
      × (length p.allowed_ips ≤ 128)

  check_peers-IsPeer :
      (index : ℕ) (ps : List (Peer Net)) (u : Unit {0})
      → All PeerWithin ps
      → check_peers index ps ≡ ok u
      → All IsPeer ps
  unfolding check_peers
  check_peers-IsPeer index [] u w e = tt
  check_peers-IsPeer index (p ∷ ps) u w e = elim (Bool-cases (is_empty p.public_key)) [
    | inl empty ↦ absurd (ground (arith, empty, e))
    | inr key ↦ elim (Bool-cases (none_left p.allowed_ips)) [
      | inl none_is ↦ absurd (ground (arith, key, none_is, e))
      | inr ranges ↦ (
        (key, w.0.0, ground (arith, ranges), w.0.1),
        check_peers-IsPeer (suc index) ps u w.1 (ground (arith, key, ranges, e)),
      )
    ]
  ]

  -- A private key, 1 to 32 peers, each with a key and ranges within bounds, one of them for all of
  -- IPv4.
  abbrev pub IsAccepted : WireGuardProfile Net Addr → Type 0
  IsAccepted profile =
      (is_some profile.interface.private_key ≡ true)
      × (1 ≤ length profile.peers)
      × (length profile.peers ≤ 32)
      × All IsPeer profile.peers
      × ((index : ℕ) × (default_peers ips 0 profile.peers ≡ index ∷ []))

  one_default : (l : List ℕ) (index : ℕ) → one_of l ≡ ok index → l ≡ index ∷ []
  one_default [] index e = absurd (ground (arith, e))
  one_default (i ∷ []) index e = ground (arith, e)
  one_default (i ∷ j ∷ l) index e = absurd (ground (arith, e))

  finish-IsAccepted :
      (s : Parsing Net Addr) (profile : WireGuardProfile Net Addr)
      → Within s
      → finish ips s ≡ ok profile
      → IsAccepted profile
  unfolding finish full_tunnel_peer
  finish-IsAccepted s profile w e =
      let (u1, seen, e1) =
        bind_ok (ensure s.interface_seen (general "profile has no [Interface] section")) _ profile
          e in
      let (u2, some_peer, e2) =
        bind_ok (ensure (not (none_left s.profile.peers)) (general "profile has no [Peer] section"))
          _ profile e1 in
      let (u3, has_key, e3) =
        bind_ok
          (ensure (is_some s.profile.interface.private_key)
            (general "Interface.PrivateKey is required"))
          _ profile e2 in
      let (u4, checked, e4) = bind_ok (check_peers 0 s.profile.peers) _ profile e3 in
      let (index, one, done) = bind_ok (full_tunnel_peer ips s.profile) _ profile e4 in
      subst IsAccepted (ok_injective done) (
        ground (arith, has_key),
        some_left (general "profile has no [Peer] section") u2 s.profile.peers some_peer,
        w.0,
        check_peers-IsPeer 0 s.profile.peers u4 w.1 checked,
        (index, one_default (default_peers ips 0 s.profile.peers) index one),
      )
    where
      some_left :
          (e : ProfileError) (u : Unit {0}) (ps : List (Peer Net))
          → ensure (not (none_left ps)) e ≡ ok u
          → 1 ≤ length ps
      some_left e u [] h = absurd (ground (arith, h))
      some_left e u (p ∷ ps) h = omega arith

  -- A source that is accepted gives a profile with a private key and 1 to 32 peers. Each peer has a
  -- public key and 1 to 128 allowed ranges, its key at most 128 bytes; exactly one of them routes all
  -- of IPv4.
  pub parse-IsAccepted :
      (from_utf8 : List ℕ → Option String) (source : List ℕ) (profile : WireGuardProfile Net Addr)
      → parse ips from_utf8 source ≡ ok profile
      → IsAccepted profile
  unfolding parse parse_text
  parse-IsAccepted from_utf8 source profile e =
      let (u, small, e1) =
        bind_ok
          (ensure (not (ltb max_profile_bytes (length source)))
            (general "profile exceeds the 256 KiB limit"))
          _ profile e in
      let (text, is_text, e2) =
        bind_ok (ok_or (from_utf8 source) (general "profile must be valid UTF-8")) _ profile e1 in
      let (s, is_s, done) = bind_ok (parse_lines ips (lines text) 1 at_start) _ profile e2 in
      finish-IsAccepted s profile
        (parse_lines-Within (lines text) 1 at_start s (omega arith, tt) is_s) done
