-- ===== src/Enforcement/Calls.antt =====
-- The DNATs of src/enforcement.rs, over any sequence of calls.
use egressy.Base.{
  ◌≡◌, refl, ◌⊎◌, inl, inr, String, Bool, true, false, not, ◌||◌, Option, some, List, [], ◌∷◌, Map,
  lookup, insert, remove, retain, string_key, eq_iff, is_some, arith, Distinct, insert-Distinct,
  remove-Distinct, retain-Distinct, lookup-insert, lookup-remove, lookup-retain, Option-cases,
  Bool-cases,
}
use egressy.State.{ClientState}
use egressy.Enforcement.{
  Dnat, DnatTarget, same_target, DesiredPolicy, Failure, Listing, Kernel, Application,
  select_dnat_targets, observe_kernel_locked, install, apply_locked, after, then_true, enable_dnat,
  disable_dnat, set_dnat_for_target, clear_dnat_for_usage, retarget, sample_client_counters,
  sync_clients, reconcile_clients, not_run, no_table, unread, undecoded, listed, not_started,
  refused, accepted,
}

-- Every DNAT that is desired is of a usage that has a target; while none is allowed none is desired.
pub record IsGuarded {Ip6 : Type 0} (p : DesiredPolicy Ip6) : Type 0 where
  pub distinct : Distinct p.desired_dnat
  pub aimed :
      (u : String) (d : Dnat)
      → lookup u p.desired_dnat ≡ some d
      → is_some (lookup u p.dnat_targets) ≡ true
  pub barred : p.dnat_allowed ≡ false → p.desired_dnat ≡ []

module _ {Ip6 : Type 0} where
  -- What `apply_locked` leaves of the policy, whatever nft does.
  abbrev pub SameWishes : DesiredPolicy Ip6 → DesiredPolicy Ip6 → Type 0
  SameWishes q p =
      (q.dnat_allowed ≡ p.dnat_allowed)
      × (q.dnat_targets ≡ p.dnat_targets)
      × (q.desired_dnat ≡ p.desired_dnat)

  pub observe_wishes :
      (b : Bool) (l : Listing) (p : DesiredPolicy Ip6)
      → SameWishes (observe_kernel_locked b l p).0 p
        × ((observe_kernel_locked b l p).0.applied_dnat ≡ p.applied_dnat)
  unfolding observe_kernel_locked
  observe_wishes false l p = ((refl, refl, refl), refl)
  observe_wishes true not_run p = ((refl, refl, refl), refl)
  observe_wishes true no_table p = ((refl, refl, refl), refl)
  observe_wishes true unread p = ((refl, refl, refl), refl)
  observe_wishes true undecoded p = ((refl, refl, refl), refl)
  observe_wishes true (listed items) p = ((refl, refl, refl), refl)

  install_wishes : (a : Application) (p : DesiredPolicy Ip6) → SameWishes (install a p).0 p
  unfolding install
  install_wishes not_started p = (refl, refl, refl)
  install_wishes refused p = (refl, refl, refl)
  install_wishes accepted p = (refl, refl, refl)

  pub apply_wishes :
      (b : Bool) (k : Kernel) (p : DesiredPolicy Ip6) → SameWishes (apply_locked b k p).0 p
  unfolding apply_locked
  apply_wishes false k p = (refl, refl, refl)
  apply_wishes true k p = ground (
    arith,
    observe_wishes true k.listing p,
    install_wishes k.application (observe_kernel_locked true k.listing p).0,
  )

  same-IsGuarded : (q p : DesiredPolicy Ip6) → SameWishes q p → IsGuarded p → IsGuarded q
  same-IsGuarded q p (a, t, d) g = record {
    distinct = rw d g.distinct;
    aimed = λ u x e. rw t (g.aimed u x (rw d at e));
    barred = λ e. rw d (g.barred (rw a at e));
  }

  insert-IsGuarded :
      (u : String) (dnat : Dnat) (p : DesiredPolicy Ip6)
      → is_some (lookup u p.dnat_targets) ≡ true
      → p.dnat_allowed ≡ true
      → IsGuarded p
      → IsGuarded (record p { desired_dnat = insert u dnat p.desired_dnat })
  insert-IsGuarded u dnat p has on g = record {
    distinct = insert-Distinct u dnat p.desired_dnat g.distinct;
    aimed = λ v x e.
        ground (arith, lookup-insert u v dnat p.desired_dnat, eq_iff u v, g.aimed v x, has);
    barred = λ e. ground (arith, e, on);
  }

  remove-IsGuarded :
      (u : String) (p : DesiredPolicy Ip6)
      → IsGuarded p
      → IsGuarded (record p { desired_dnat = remove u p.desired_dnat })
  unfolding remove
  remove-IsGuarded u p g = record {
    distinct = remove-Distinct u p.desired_dnat g.distinct;
    aimed = λ v x e. ground (arith, lookup-remove u v p.desired_dnat, g.aimed v x);
    barred = λ e. rw (g.barred e) refl;
  }

  retarget-IsGuarded :
      (targets : Map String DnatTarget) (p : DesiredPolicy Ip6)
      → IsGuarded p
      → IsGuarded (retarget targets p)
  unfolding retarget retain
  retarget-IsGuarded targets p g =
      let keeps : String → Dnat → Bool =
        λ u d. same_target (lookup u p.dnat_targets) (lookup u targets) in
      record {
        distinct = retain-Distinct keeps p.desired_dnat g.distinct;
        aimed = λ v x e. elim (Option-cases (lookup v p.desired_dnat)) [
          | inl f ↦ ground (arith, lookup-retain keeps v p.desired_dnat g.distinct, f, e)
          | inr (y, f) ↦
              ground (arith, lookup-retain keeps v p.desired_dnat g.distinct, f, e, g.aimed v y f)
        ];
        barred = λ e. rw (g.barred e) refl;
      }

  apply-IsGuarded :
      (b : Bool) (k : Kernel) (p : DesiredPolicy Ip6)
      → IsGuarded p
      → IsGuarded (apply_locked b k p).0
  apply-IsGuarded b k p g = same-IsGuarded (apply_locked b k p).0 p (apply_wishes b k p) g

  disable_dnat-IsGuarded :
      (b : Bool) (k : Kernel) (p : DesiredPolicy Ip6) → IsGuarded (disable_dnat b k p).0
  unfolding disable_dnat lookup
  disable_dnat-IsGuarded b k p =
      apply-IsGuarded b k (record p { dnat_allowed = false; desired_dnat = [] })
        (record { distinct = tt; aimed = λ u d e. cc; barred = λ e. refl })

  then_true-state : {A : Type 0} (r : DesiredPolicy Ip6 × (Failure ⊎ A)) → (then_true r).0 ≡ r.0
  unfolding then_true
  then_true-state (q, inl why) = refl
  then_true-state (q, inr done) = refl

  set_dnat-IsGuarded :
      (b : Bool) (k : Kernel) (u : String) (d : Dnat) (t : DnatTarget) (p : DesiredPolicy Ip6)
      → IsGuarded p
      → IsGuarded (set_dnat_for_target b k u d t p).0
  unfolding set_dnat_for_target
  set_dnat-IsGuarded b k u d t p g =
      elim (Bool-cases
        (not p.dnat_allowed || not (same_target (lookup u p.dnat_targets) (some t)))) [
          | inl stale ↦ rw stale g
          | inr fresh ↦ rw fresh (
              let wish : DesiredPolicy Ip6 = record p {
                desired_dnat = insert u d p.desired_dnat;
              } in
              rw (then_true-state (apply_locked b k wish)) (
                apply-IsGuarded b k wish
                  (insert-IsGuarded u d p (ground (arith, fresh)) (ground (arith, fresh)) g)))
        ]

  after-state :
      {A : Type 0} (P : DesiredPolicy Ip6 → Type 0) (r : DesiredPolicy Ip6 × (Failure ⊎ Unit {0}))
      (f : DesiredPolicy Ip6 → DesiredPolicy Ip6 × (Failure ⊎ A))
      → P r.0
      → P (f r.0).0
      → P (after r f).0
  unfolding after
  after-state P (q, inl why) f here there = here
  after-state P (q, inr done) f here there = there

  observe-IsGuarded :
      (b : Bool) (l : Listing) (p : DesiredPolicy Ip6)
      → IsGuarded p
      → IsGuarded (observe_kernel_locked b l p).0
  observe-IsGuarded b l p g =
      same-IsGuarded (observe_kernel_locked b l p).0 p (observe_wishes b l p).0 g

module _ {Ip6 Priorities : Type 0} (parse : String → Option Ip6) where
  reconcile-IsGuarded :
      (b : Bool) (l : Listing) (k : Kernel) (clients : Map String (ClientState Priorities))
      (p : DesiredPolicy Ip6)
      → IsGuarded p
      → IsGuarded (reconcile_clients parse b l k clients p).0
  unfolding reconcile_clients sync_clients
  reconcile-IsGuarded b l k clients p g =
      let q = (observe_kernel_locked b l p).0 in
      let h = observe-IsGuarded b l p g in
      let r = retarget (select_dnat_targets clients) q in
      let t = retarget-IsGuarded (select_dnat_targets clients) q h in
      after-state IsGuarded (observe_kernel_locked b l p) _ h (
        apply-IsGuarded b k (sync_clients parse clients r)
          (same-IsGuarded (sync_clients parse clients r) r (refl, refl, refl) t))

-- The calls that change the policy.
pub data Call (Priorities : Type 0) : Type 0 where
  reconciles_base : Kernel → Call Priorities
  enables : Call Priorities
  disables : Kernel → Call Priorities
  sets : Kernel → String → Dnat → DnatTarget → Call Priorities
  clears : Kernel → String → Call Priorities
  reconciles : Listing → Kernel → Map String (ClientState Priorities) → Call Priorities
  samples : Listing → Call Priorities

module _ {Ip6 Priorities : Type 0} (parse : String → Option Ip6) (enabled : Bool) where
  pub call : Call Priorities → DesiredPolicy Ip6 → DesiredPolicy Ip6
  call (reconciles_base k) p = (apply_locked enabled k p).0
  call enables p = enable_dnat p
  call (disables k) p = (disable_dnat enabled k p).0
  call (sets k u d t) p = (set_dnat_for_target enabled k u d t p).0
  call (clears k u) p = (clear_dnat_for_usage enabled k u p).0
  call (reconciles l k clients) p = (reconcile_clients parse enabled l k clients p).0
  call (samples l) p = (sample_client_counters enabled l p).0

  pub calls : List (Call Priorities) → DesiredPolicy Ip6 → DesiredPolicy Ip6
  unfolding call
  calls [] p = p
  calls (c ∷ cs) p = calls cs (call c p)

  call-IsGuarded :
      (c : Call Priorities) (p : DesiredPolicy Ip6) → IsGuarded p → IsGuarded (call c p)
  unfolding call enable_dnat clear_dnat_for_usage sample_client_counters
  call-IsGuarded (reconciles_base k) p g = apply-IsGuarded enabled k p g
  call-IsGuarded enables p g = record { distinct = g.distinct; aimed = g.aimed; barred = λ e. cc }
  call-IsGuarded (disables k) p g = disable_dnat-IsGuarded enabled k p
  call-IsGuarded (sets k u d t) p g = set_dnat-IsGuarded enabled k u d t p g
  call-IsGuarded (clears k u) p g = apply-IsGuarded enabled k _ (remove-IsGuarded u p g)
  call-IsGuarded (reconciles l k clients) p g = reconcile-IsGuarded parse enabled l k clients p g
  call-IsGuarded (samples l) p g =
      after-state IsGuarded (observe_kernel_locked enabled l p) _ (observe-IsGuarded enabled l p g)
        (observe-IsGuarded enabled l p g)

  -- From a guarded policy, over any calls and whatever nft does: every DNAT that is desired is of a
  -- usage that has a target, none is desired twice, and none is while DNAT is not allowed.
  pub calls-IsGuarded :
      (cs : List (Call Priorities)) (p : DesiredPolicy Ip6) → IsGuarded p → IsGuarded (calls cs p)
  unfolding calls
  calls-IsGuarded [] p g = g
  calls-IsGuarded (c ∷ cs) p g = calls-IsGuarded cs (call c p) (call-IsGuarded c p g)
