-- ===== src/Enforcement/Applying.antt =====
-- What one run of `apply_locked` of src/enforcement.rs comes to.
use egressy.Base.{
  ◌≡◌, refl, ◌∙◌, ◌⊎◌, inl, inr, String, true, some, List, [], ◌∷◌, map, Map, string_key,
}
use egressy.Enforcement.Counters.{ClientCounters, totals, seed_all, seed}
use egressy.Enforcement.{
  DesiredPolicy, Failure, Kernel, Application, Ruleset, ClientCounterRule, map_values, values,
  counter_rule, observe_kernel_locked, install, rules_of, apply_locked, after, not_started, refused,
  accepted,
}
use egressy.Enforcement.Calls.{observe_wishes}

-- The client's counters are expected to go on from what the rule starts the kernel's at.
abbrev pub GoesOn : {Ip6 : Type 0} → ClientCounters Ip6 → ClientCounterRule Ip6 → Type 0
GoesOn c r =
    (c.address ≡ r.address)
    × (c.download_packets.last_raw ≡ r.counts.download_packets)
    × (c.downloaded_bytes.last_raw ≡ r.counts.downloaded_bytes)
    × (c.upload_packets.last_raw ≡ r.counts.upload_packets)
    × (c.uploaded_bytes.last_raw ≡ r.counts.uploaded_bytes)
    × (totals c ≡ r.counts)

-- Each client has its rule, in order.
abbrev pub AllGoOn :
    {Ip6 : Type 0} → Map String (ClientCounters Ip6) → List (ClientCounterRule Ip6) → Type 0
AllGoOn [] [] = Unit
AllGoOn [] (r ∷ rs) = ⊥
AllGoOn (c ∷ cs) [] = ⊥
AllGoOn ((id, c) ∷ cs) (r ∷ rs) = (r.container_id ≡ id) × GoesOn c r × AllGoOn cs rs

module _ {Ip6 : Type 0} where
  seed_all-AllGoOn :
      (m : Map String (ClientCounters Ip6))
      → AllGoOn (map_values (λ id c. seed_all c) m) (map counter_rule m)
  unfolding seed_all seed totals
  seed_all-AllGoOn [] = tt
  seed_all-AllGoOn ((id, c) ∷ m) = (refl, (refl, refl, refl, refl, refl, refl), seed_all-AllGoOn m)

  install_outcome :
      (a : Application) (p : DesiredPolicy Ip6)
      → let (q, r) = install a p in
        ((why : Failure) × (r ≡ inl why) × (q.applied_dnat ≡ p.applied_dnat))
        ⊎ ((rules : Ruleset Ip6) × (r ≡ inr (some rules))
            × (q.applied_dnat ≡ p.desired_dnat)
            × (rules.dnat ≡ values p.desired_dnat)
            × AllGoOn q.clients rules.counters)
  unfolding install rules_of
  install_outcome not_started p = inl (_, refl, refl)
  install_outcome refused p = inl (_, refl, refl)
  install_outcome accepted p = inr (_, refl, refl, refl, seed_all-AllGoOn p.clients)

  -- Where the firewall is applied, a run either fails and leaves the DNATs that are applied as they
  -- were, or nft takes rules with exactly the desired DNATs, which then are the applied ones, and
  -- every client's counters go on from the totals that its rule starts the kernel's at.
  pub apply_locked_outcome :
      (k : Kernel) (p : DesiredPolicy Ip6)
      → let (q, r) = apply_locked true k p in
        ((why : Failure) × (r ≡ inl why) × (q.applied_dnat ≡ p.applied_dnat))
        ⊎ ((rules : Ruleset Ip6) × (r ≡ inr (some rules))
            × (q.applied_dnat ≡ p.desired_dnat)
            × (rules.dnat ≡ values p.desired_dnat)
            × AllGoOn q.clients rules.counters)
  unfolding apply_locked after
  apply_locked_outcome k p =
      run (observe_kernel_locked true k.listing p) (observe_wishes true k.listing p).1
        (observe_wishes true k.listing p).0.2
    where
      run :
          (o : DesiredPolicy Ip6 × (Failure ⊎ Unit {0}))
          → o.0.applied_dnat ≡ p.applied_dnat
          → o.0.desired_dnat ≡ p.desired_dnat
          → let (q, r) = after o (install k.application) in
            ((why : Failure) × (r ≡ inl why) × (q.applied_dnat ≡ p.applied_dnat))
            ⊎ ((rules : Ruleset Ip6) × (r ≡ inr (some rules))
                × (q.applied_dnat ≡ p.desired_dnat)
                × (rules.dnat ≡ values p.desired_dnat)
                × AllGoOn q.clients rules.counters)
      run (o, inl why) same wish = inl (why, refl, same)
      run (o, inr done) same wish = elim (install_outcome k.application o) [
        | inl (why, e, f) ↦ inl (why, e, f ∙ same)
        | inr (rules, e, f, d, g) ↦ inr (rules, e, f ∙ wish, rw wish at d, g)
      ]
