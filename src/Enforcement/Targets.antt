-- ===== src/Enforcement/Targets.antt =====
-- Which clients of src/enforcement.rs a DNAT may lead to, and what a reconciliation keeps.
use egressy.Base.{
  ℕ, ◌≡◌, refl, ◌⊎◌, inl, inr, String, Bool, true, false, not, ◌&&◌, ◌||◌, Option, none, some, [],
  ◌∷◌, Map, lookup, insert, string_key, str_eq, eq_iff, if◌then◌else◌, arith, Distinct,
  lookup-insert, lookup-retain, Option-cases, Bool-cases,
}
use egressy.State.{ClientState}
use egressy.Enforcement.{
  Dnat, DnatTarget, same_target, DesiredPolicy, Failure, Listing, Kernel, select_from,
  select_dnat_targets, observe_kernel_locked, apply_locked, after, then_true, set_dnat_for_target,
  retarget, sync_clients, reconcile_clients,
}
use egressy.Enforcement.Calls.{observe_wishes, apply_wishes}

-- A client is the one that a target names.
abbrev pub IsTarget : {Priorities : Type 0} → String → DnatTarget → ClientState Priorities → Type 0
IsTarget u t c =
    (c.port_forward_target ≡ true)
    × (c.compliant ≡ true)
    × (c.usage_id ≡ u)
    × (c.container_id ≡ t.container_id)
    × (c.ipv4_address ≡ t.address)
    × (c.target_port ≡ some t.port)

-- One of the clients is.
abbrev pub Selected :
    {Priorities : Type 0} → String → DnatTarget → Map String (ClientState Priorities) → Type 0
Selected u t [] = ⊥
Selected u t ((id, c) ∷ m) = IsTarget u t c ⊎ Selected u t m

module _ {Priorities : Type 0} where
  select_from_sound :
      (m : Map String (ClientState Priorities)) (targets : Map String DnatTarget) (u : String)
      (t : DnatTarget)
      → lookup u (select_from m targets) ≡ some t
      → (lookup u targets ≡ some t) ⊎ Selected u t m
  unfolding select_from
  select_from_sound [] targets u t e = inl e
  select_from_sound ((id, c) ∷ m) targets u t e =
      elim (Bool-cases (c.port_forward_target && c.compliant)) [
        | inl wanted ↦ elim (Option-cases c.target_port) [
          | inl f ↦ later (select_from_sound m targets u t (rw (wanted, f) at e))
          | inr (port, f) ↦ taken port f wanted (select_from_sound m _ u t (rw (wanted, f) at e))
        ]
        | inr skipped ↦ later (select_from_sound m targets u t (rw skipped at e))
      ]
    where
      later :
          (lookup u targets ≡ some t) ⊎ Selected u t m
          → (lookup u targets ≡ some t) ⊎ Selected u t ((id, c) ∷ m)
      later (inl old) = inl old
      later (inr new) = inr (inr new)

      taken :
          (port : ℕ)
          → c.target_port ≡ some port
          → (c.port_forward_target && c.compliant) ≡ true
          → (lookup u (
                insert c.usage_id
                  (record { container_id = c.container_id; address = c.ipv4_address; port = port })
                  targets)
              ≡ some t)
            ⊎ Selected u t m
          → (lookup u targets ≡ some t) ⊎ Selected u t ((id, c) ∷ m)
      taken port f wanted (inr new) = inr (inr new)
      taken port f wanted (inl found) = elim (Bool-cases (str_eq c.usage_id u)) [
        | inl same ↦ inr (
            inl (
              ground (
                arith,
                wanted,
                f,
                found,
                same,
                eq_iff c.usage_id u,
                lookup-insert c.usage_id u
                    (record {
                      container_id = c.container_id;
                      address = c.ipv4_address;
                      port = port;
                    })
                    targets,
              )))
        | inr other ↦ inl (
            ground (
              arith,
              found,
              other,
              lookup-insert c.usage_id u
                  (record { container_id = c.container_id; address = c.ipv4_address; port = port })
                  targets,
            ))
      ]

  -- A usage has a target only if a client of that usage is compliant, asks for forwarding and has a
  -- port; the target is that client.
  pub select_dnat_targets_sound :
      (clients : Map String (ClientState Priorities)) (u : String) (t : DnatTarget)
      → lookup u (select_dnat_targets clients) ≡ some t
      → Selected u t clients
  unfolding select_dnat_targets lookup
  select_dnat_targets_sound clients u t e = elim (select_from_sound clients [] u t e) [
    | inl absent ↦ absurd (cc (absent))
    | inr s ↦ s
  ]

module _ {Ip6 : Type 0} where
  -- A DNAT for a target that is not the usage's own, or while none is allowed, is turned down and
  -- changes nothing; else the DNAT is desired afterwards, whatever nft does.
  pub set_dnat_for_target_lem :
      (b : Bool) (k : Kernel) (u : String) (d : Dnat) (t : DnatTarget) (p : DesiredPolicy Ip6)
      → let fits = p.dnat_allowed && same_target (lookup u p.dnat_targets) (some t) in
        let (q, r) = set_dnat_for_target b k u d t p in
        ((fits ≡ false) × (r ≡ inr false) × (q ≡ p))
        ⊎ ((fits ≡ true) × (q.desired_dnat ≡ insert u d p.desired_dnat) × ((r ≡ inr false) → ⊥))
  unfolding set_dnat_for_target then_true
  set_dnat_for_target_lem b k u d t p =
      elim (Bool-cases
        (not p.dnat_allowed || not (same_target (lookup u p.dnat_targets) (some t)))) [
          | inl stale ↦ inl (ground (arith, stale), ground (arith, stale), ground (arith, stale))
          | inr fresh ↦ inr (
            ground (arith, fresh),
            ground (
              arith,
              fresh,
              apply_wishes b k (record p { desired_dnat = insert u d p.desired_dnat }),
            ),
            λ e. ground (arith, fresh, e),
          )
        ]

  after-inr :
      {A : Type 0} (r : DesiredPolicy Ip6 × (Failure ⊎ Unit {0}))
      (f : DesiredPolicy Ip6 → DesiredPolicy Ip6 × (Failure ⊎ A))
      → r.1 ≡ inr tt
      → after r f ≡ f r.0
  unfolding after
  after-inr (q, inl why) f e = cc
  after-inr (q, inr done) f e = refl

module _ {Ip6 Priorities : Type 0} (parse : String → Option Ip6) where
  -- When the counters could be read, a reconciliation takes the targets from the clients and keeps
  -- a DNAT exactly when the target of its usage is what it was, whatever nft does.
  pub reconcile_clients_keeps :
      (b : Bool) (l : Listing) (k : Kernel) (clients : Map String (ClientState Priorities))
      (p : DesiredPolicy Ip6) (u : String)
      → Distinct p.desired_dnat
      → (observe_kernel_locked b l p).1 ≡ inr tt
      → let q = (reconcile_clients parse b l k clients p).0 in
        let targets = select_dnat_targets clients in
        (q.dnat_targets ≡ targets)
        × (lookup u q.desired_dnat ≡ (
            if same_target (lookup u p.dnat_targets) (lookup u targets)
            then lookup u p.desired_dnat
            else none))
  unfolding reconcile_clients retarget sync_clients
  reconcile_clients_keeps b l k clients p u d read =
      let targets = select_dnat_targets clients in
      let o = (observe_kernel_locked b l p).0 in
      let (same, applied) = observe_wishes b l p in
      let r = sync_clients parse clients (retarget targets o) in
      let keeps : String → Dnat → Bool =
        λ v x. same_target (lookup v p.dnat_targets) (lookup v targets) in
      rw
        (after-inr (observe_kernel_locked b l p)
          (λ q. apply_locked b k (sync_clients parse clients (retarget targets q))) read)
        (ground (arith, apply_wishes b k r, same, lookup-retain keeps u p.desired_dnat d))
