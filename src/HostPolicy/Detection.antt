-- ===== src/HostPolicy/Detection.antt =====
-- What the detection of src/host_policy.rs finds: it agrees with what is listed, and with the
-- commands that install the policy.
use egressy.Base.{
  ℕ, ◌≡◌, ◌↔◌, ◌⊎◌, inl, inr, String, Bool, true, false, not, ◌&&◌, Option, none, some, List, [],
  ◌∷◌, any, eq_iff, decimal, arith,
}
use egressy.HostPolicy.{HostPolicy}
use egressy.HostPolicy.Drift.{
  IpRuleEntry, IpRouteEntry, is_clean, split_prefix, is_text, is_number, rule_matches, rule_present,
  is_subnet_route, is_default_route, is_unreachable_route, routes_present, detect_drift,
}

-- Some entry is so.
abbrev pub Some : {A : Type 0} → (A → Type 0) → List A → Type 0
Some P [] = ⊥
Some P (x ∷ xs) = P x ⊎ Some P xs

any_iff : {A : Type 0} (p : A → Bool) (xs : List A) → (any p xs ≡ true) ↔ Some (λ x. p x ≡ true) xs
any_iff p [] = ground arith
any_iff p (x ∷ xs) = ground (arith, any_iff p xs)

Some-map :
    {A : Type 0} (P Q : A → Type 0) (xs : List A) → ((x : A) → P x → Q x) → Some P xs → Some Q xs
Some-map P Q [] f s = s
Some-map P Q (x ∷ xs) f (inl h) = inl (f x h)
Some-map P Q (x ∷ xs) f (inr s) = inr (Some-map P Q xs f s)

-- A test that decides a predicate decides it of some entry.
any-Some :
    {A : Type 0} (p : A → Bool) (P : A → Type 0) (xs : List A)
    → ((x : A) → (p x ≡ true) ↔ P x)
    → (any p xs ≡ true) ↔ Some P xs
any-Some p P xs f = (
  λ h. Some-map (λ x. p x ≡ true) P xs (λ x. (f x).0) ((any_iff p xs).0 h),
  λ h. (any_iff p xs).1 (Some-map P (λ x. p x ≡ true) xs (λ x. (f x).1) h),
)

-- The rule that sends the subnet to the policy's table, as `ip` lists it where no name is mapped to
-- the table.
abbrev pub IsPolicyRule : HostPolicy → String → ℕ → IpRuleEntry → Type 0
IsPolicyRule p address length rule =
    (rule.priority ≡ some p.rule_priority)
    × (rule.src ≡ some address)
    × (rule.srclen ≡ some length)
    × (rule.table ≡ some (decimal p.route_table))

abbrev pub IsSubnetRoute : HostPolicy → IpRouteEntry → Type 0
IsSubnetRoute p r = (r.dst ≡ some p.subnet) × (r.dev ≡ some p.bridge)

abbrev pub IsDefaultRoute : HostPolicy → IpRouteEntry → Type 0
IsDefaultRoute p r =
    (r.dst ≡ some "default") × (r.dev ≡ some p.bridge) × (r.gateway ≡ some p.gateway_ip)

abbrev pub IsUnreachableRoute : IpRouteEntry → Type 0
IsUnreachableRoute r = (r.dst ≡ some "default") × (r.route_type ≡ some "unreachable")

is_text_iff : (o : Option String) (s : String) → (is_text o s ≡ true) ↔ (o ≡ some s)
is_text_iff none s = ground arith
is_text_iff (some t) s = ground (arith, eq_iff t s)

is_number_iff : (o : Option ℕ) (n : ℕ) → (is_number o n ≡ true) ↔ (o ≡ some n)
is_number_iff none n = ground arith
is_number_iff (some m) n = ground arith

rule_matches_iff :
    (p : HostPolicy) (address : String) (length : ℕ) (r : IpRuleEntry)
    → (rule_matches p address length r ≡ true) ↔ IsPolicyRule p address length r
rule_matches_iff p address length r = ground (
  arith,
  is_number_iff r.priority p.rule_priority,
  is_text_iff r.src address,
  is_number_iff r.srclen length,
  is_text_iff r.table (decimal p.route_table),
)

module _ (rules : List IpRuleEntry) (routes : List IpRouteEntry) (p : HostPolicy) where
  found_rule :
      (address : String) (length : ℕ)
      → split_prefix p.subnet ≡ some (address, length)
      → (rule_present rules p ≡ true) ↔ Some (IsPolicyRule p address length) rules
  unfolding rule_present
  found_rule address length e =
      rw (e, rule_present)
        (any-Some (rule_matches p address length) (IsPolicyRule p address length) rules
          (rule_matches_iff p address length))

  found_subnet : (any (is_subnet_route p) routes ≡ true) ↔ Some (IsSubnetRoute p) routes
  found_subnet = any-Some (is_subnet_route p) (IsSubnetRoute p) routes matches
    where
      matches : (r : IpRouteEntry) → (is_subnet_route p r ≡ true) ↔ IsSubnetRoute p r
      matches r = ground (arith, is_text_iff r.dst p.subnet, is_text_iff r.dev p.bridge)

  found_default : (any (is_default_route p) routes ≡ true) ↔ Some (IsDefaultRoute p) routes
  found_default = any-Some (is_default_route p) (IsDefaultRoute p) routes matches
    where
      matches : (r : IpRouteEntry) → (is_default_route p r ≡ true) ↔ IsDefaultRoute p r
      matches r = ground (
        arith,
        is_text_iff r.dst "default",
        is_text_iff r.dev p.bridge,
        is_text_iff r.gateway p.gateway_ip,
      )

  found_unreachable : (any is_unreachable_route routes ≡ true) ↔ Some IsUnreachableRoute routes
  found_unreachable = any-Some is_unreachable_route IsUnreachableRoute routes matches
    where
      matches : (r : IpRouteEntry) → (is_unreachable_route r ≡ true) ↔ IsUnreachableRoute r
      matches r =
          ground (arith, is_text_iff r.dst "default", is_text_iff r.route_type "unreachable")

  -- Nothing of an IPv4 policy is missing exactly when its rule, with the table as a decimal number, its
  -- subnet's route, its default route and the last-resort route are all listed and the table of nft is
  -- there. The subnet is a prefix. A rule that is listed with the table's name does not count.
  pub detect_drift_clean :
      (address : String) (length : ℕ) (table : Bool)
      → split_prefix p.subnet ≡ some (address, length)
      → (is_clean (detect_drift rules routes table p) ≡ true) ↔ (
          Some (IsPolicyRule p address length) rules
          × Some (IsSubnetRoute p) routes
          × Some (IsDefaultRoute p) routes
          × Some IsUnreachableRoute routes
          × (table ≡ true))
  unfolding detect_drift is_clean routes_present
  detect_drift_clean address length table e =
      cleared (rule_present rules p) (any (is_subnet_route p) routes)
        (any (is_default_route p) routes) (any is_unreachable_route routes)
        (found_rule address length e) found_subnet found_default found_unreachable
    where
      cleared :
          {P Q R S : Type 0} (a b c d : Bool)
          → (a ≡ true) ↔ P
          → (b ≡ true) ↔ Q
          → (c ≡ true) ↔ R
          → (d ≡ true) ↔ S
          → ((not (not a)
                && (not (not b)
                    && (not (not (c && d))
                        && (not (not table) && (not false && (not false && not false))))))
              ≡ true)
            ↔ (P × Q × R × S × (table ≡ true))
      cleared a b c d pa pb pc pd = ground arith
