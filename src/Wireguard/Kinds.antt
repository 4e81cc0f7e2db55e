-- ===== src/Wireguard/Kinds.antt =====
-- What the kinds of change of src/wireguard.rs promise of a tunnel that keeps running.
use egressy.Base.{
  ℕ, ◌≡◌, refl, String, Bool, true, false, ◌&&◌, Option, none, some, List, [], ◌∷◌, length, str_eq,
  eq_iff, ◌==◌, arith, Key,
}
use egressy.Wireguard.{
  Endpoint, Peer, WireGuardProfile, Addresses, ApplyKind, no_change, dns_reload, sync_conf,
  sync_conf_and_routes, tunnel_recycle,
}
use egressy.Wireguard.Changes.{
  same_text, same_number, same_endpoint, same_values, peer_eq, peers_equal, ranges_change,
  same_device, render, decide, diff,
}

same_text_lem : (a b : Option String) → same_text a b ≡ true → a ≡ b
same_text_lem none none h = refl
same_text_lem none (some y) h = absurd (ground (arith, h))
same_text_lem (some x) none h = absurd (ground (arith, h))
same_text_lem (some x) (some y) h = ground (arith, h, eq_iff x y)

same_number_lem : (a b : Option ℕ) → same_number a b ≡ true → a ≡ b
same_number_lem none none h = refl
same_number_lem none (some y) h = absurd (ground (arith, h))
same_number_lem (some x) none h = absurd (ground (arith, h))
same_number_lem (some x) (some y) h = ground (arith, h)

same_endpoint_lem : (a b : Option Endpoint) → same_endpoint a b ≡ true → a ≡ b
same_endpoint_lem none none h = refl
same_endpoint_lem none (some y) h = absurd (ground (arith, h))
same_endpoint_lem (some x) none h = absurd (ground (arith, h))
same_endpoint_lem (some x) (some y) h =
    ground (arith, h, eq_iff x.host y.host, eq_iff x.address_family y.address_family)

same_values_lem : {T : Type 0} ⦃k : Key T⦄ (a b : List T) → same_values a b ≡ true → a ≡ b
same_values_lem [] [] h = refl
same_values_lem [] (y ∷ ys) h = absurd (ground (arith, h))
same_values_lem (x ∷ xs) [] h = absurd (ground (arith, h))
same_values_lem ⦃k⦄ (x ∷ xs) (y ∷ ys) h = ground (arith, h, k.beq_iff x y, same_values_lem xs ys)

module _ {Net : Type 0} ⦃kn : Key Net⦄ where
  peer_eq_lem : (a b : Peer Net) → peer_eq a b ≡ true → a ≡ b
  peer_eq_lem a b h = ground (
    arith,
    h,
    eq_iff a.public_key b.public_key,
    same_text_lem a.preshared_key b.preshared_key,
    same_endpoint_lem a.endpoint b.endpoint,
    same_values_lem a.allowed_ips b.allowed_ips,
    same_number_lem a.persistent_keepalive b.persistent_keepalive,
  )

  peers_equal_lem : (a b : List (Peer Net)) → peers_equal a b ≡ true → a ≡ b
  unfolding peers_equal
  peers_equal_lem [] [] h = refl
  peers_equal_lem [] (y ∷ ys) h = absurd (ground (arith, h))
  peers_equal_lem (x ∷ xs) [] h = absurd (ground (arith, h))
  peers_equal_lem (x ∷ xs) (y ∷ ys) h = ground (arith, h, peer_eq_lem x y, peers_equal_lem xs ys)

  abbrev pub ranges_of : List (Peer Net) → List (List Net)
  ranges_of [] = []
  ranges_of (p ∷ ps) = p.allowed_ips ∷ ranges_of ps

  ranges_change_lem :
      (a b : List (Peer Net))
      → length a ≡ length b
      → ranges_change a b ≡ false
      → ranges_of a ≡ ranges_of b
  ranges_change_lem [] [] l h = refl
  ranges_change_lem [] (y ∷ ys) l h = absurd (omega (arith, l))
  ranges_change_lem (x ∷ xs) [] l h = absurd (omega (arith, l))
  ranges_change_lem (x ∷ xs) (y ∷ ys) l h =
      ground (arith, h, l, same_values_lem x.allowed_ips y.allowed_ips, ranges_change_lem xs ys)

module _ {Net Addr : Type 0} ⦃kn : Key Net⦄ ⦃ka : Key Addr⦄ (ips : Addresses Net Addr) where
  -- The key, the addresses, the port and the MTU of the device are the same.
  abbrev pub SameDevice : WireGuardProfile Net Addr → WireGuardProfile Net Addr → Type 0
  SameDevice a b =
      (a.interface.private_key ≡ b.interface.private_key)
      × (a.interface.addresses ≡ b.interface.addresses)
      × (a.interface.listen_port ≡ b.interface.listen_port)
      × (a.interface.mtu ≡ b.interface.mtu)

  same_device_lem : (a b : WireGuardProfile Net Addr) → same_device ips a b ≡ true → SameDevice a b
  same_device_lem a b h = ground (
    arith,
    h,
    same_text_lem a.interface.private_key b.interface.private_key,
    same_values_lem a.interface.addresses b.interface.addresses,
    same_number_lem a.interface.listen_port b.interface.listen_port,
    same_number_lem a.interface.mtu b.interface.mtu,
  )

  -- What a kind of change leaves as it was.
  abbrev pub Kept : ApplyKind → WireGuardProfile Net Addr → WireGuardProfile Net Addr → Type 0
  Kept no_change a b = (render ips a ≡ render ips b) × (a.interface.dns ≡ b.interface.dns)
  Kept dns_reload a b = SameDevice a b × (a.peers ≡ b.peers)
  Kept sync_conf a b = SameDevice a b × (ranges_of a.peers ≡ ranges_of b.peers)
  Kept sync_conf_and_routes a b = SameDevice a b × (length a.peers ≡ length b.peers)
  Kept tunnel_recycle a b = Unit

  -- What the kind of a change leaves as it was: no change, the text and the DNS servers; reloading
  -- DNS, the device and every peer; syncing the running tunnel, the device and every peer's ranges;
  -- syncing with new routes, the device and the number of peers.
  pub diff_keeps : (a b : WireGuardProfile Net Addr) → Kept (diff ips a b) a b
  unfolding diff
  diff_keeps a b =
      decided (str_eq (render ips a) (render ips b) && same_values a.interface.dns b.interface.dns)
        (same_device ips a b) (peers_equal a.peers b.peers) (length a.peers == length b.peers)
        (ranges_change a.peers b.peers) same_source (same_device_lem a b)
        (peers_equal_lem a.peers b.peers) (λ e. ground (arith, e))
        (λ l. ranges_change_lem a.peers b.peers l)
    where
      same_source :
          (str_eq (render ips a) (render ips b) && same_values a.interface.dns b.interface.dns)
            ≡ true
          → Kept no_change a b
      same_source e = ground (
        arith,
        e,
        eq_iff (render ips a) (render ips b),
        same_values_lem a.interface.dns b.interface.dns,
      )

      decided :
          (same device peers count ranges : Bool)
          → (same ≡ true → Kept no_change a b)
          → (device ≡ true → SameDevice a b)
          → (peers ≡ true → a.peers ≡ b.peers)
          → (count ≡ true → length a.peers ≡ length b.peers)
          → (length a.peers ≡ length b.peers
              → ranges ≡ false
              → ranges_of a.peers ≡ ranges_of b.peers)
          → Kept (decide same device peers count ranges) a b
      decided true d p c r fs fd fp fc fr = fs refl
      decided false true true c r fs fd fp fc fr = (fd refl, fp refl)
      decided false false p c r fs fd fp fc fr = tt
      decided false true false false r fs fd fp fc fr = tt
      decided false true false true true fs fd fp fc fr = (fd refl, fc refl)
      decided false true false true false fs fd fp fc fr = (fd refl, fr (fc refl) refl)
