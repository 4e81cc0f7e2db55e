-- ===== src/HostAgent/Observing.antt =====
-- What src/bin/egressy-isolation-agent.rs runs on a host where nothing is missing.
use mathlib.Core.List.{append_assoc}
use egressy.Base.{
  ℕ, ◌≡◌, refl, sym, ◌∙◌, inl, inr, ◌⊎◌, String, Bool, true, false, not, ◌||◌, Option, none, some,
  List, [], ◌∷◌, ◌++◌, All, append-All, is_some, is_empty, if◌then◌else◌, Key,
}
use egressy.Base.Results.{Result, ok, err}
use egressy.HostPolicy.{HostPolicy}
use egressy.HostPolicy.Drift.{HostPolicyDrift, detect_drift, is_clean}
use egressy.HostAgent.{
  Command, Fault, Host, Agent, then_with, ◌>>=◌, return, fail, needed, IpFamily, v4, v6,
  rules_command, routes_command, listing_command, execute, read_ip_rules, read_ip_routes,
  read_host_table, not_json, command_failed,
}
use egressy.HostAgent.Restore.{
  observe, observe_ipv6, with_listing, reconcile_with, apply_host_policy,
}

-- A command that only lists.
abbrev pub IsReading : Command → Type 0
IsReading c =
    ((family : IpFamily) × (c ≡ rules_command family))
    ⊎ (((family : IpFamily) × (table : ℕ) × (c ≡ routes_command family table))
        ⊎ (c ≡ listing_command))

-- Only such commands were run in between.
abbrev pub OnlyRead : List Command → List Command → Type 0
OnlyRead log after = (new : List Command) × (after ≡ new ++ log) × All IsReading new

read_nothing : (log : List Command) → OnlyRead log log
read_nothing log = ([], refl, tt)

read_both : (a b c : List Command) → OnlyRead a b → OnlyRead b c → OnlyRead a c
read_both a b c (new, e, reading) (more, f, also) = (
  more ++ new,
  f ∙ rw e (sym (append_assoc more new a)),
  append-All IsReading more new also reading,
)

abbrev ReadsOnly : {A : Type 0} → Agent A → Type 0
ReadsOnly m = (log : List Command) → OnlyRead log (m log).1

bind-ReadsOnly :
    {A B : Type 0} (m : Agent A) (f : A → Agent B)
    → ReadsOnly m
    → ((a : A) → ReadsOnly (f a))
    → ReadsOnly (m >>= f)
bind-ReadsOnly {A = A} {B = B} m f h k log = continued (m log) (h log)
  where
    continued :
        (r : Result Fault A × List Command) → OnlyRead log r.1 → OnlyRead log (then_with r f).1
    continued (ok a, after) reading = read_both log after (f a after).1 reading (k a after)
    continued (err e, after) reading = reading

needed-ReadsOnly : {A : Type 0} (o : Option A) (e : Fault) → ReadsOnly (needed o e)
needed-ReadsOnly none e log = read_nothing log
needed-ReadsOnly (some a) e log = read_nothing log

if-ReadsOnly :
    {A : Type 0} (b : Bool) (m n : Agent A)
    → ReadsOnly m
    → ReadsOnly n
    → ReadsOnly (if b then m else n)
if-ReadsOnly true m n h k log = h log
if-ReadsOnly false m n h k log = k log

module _ (h : Host) where
  execute-ReadsOnly : (c : Command) → IsReading c → ReadsOnly (execute h c)
  unfolding execute
  execute-ReadsOnly c reading log = (c ∷ [], refl, (reading, tt))

  rules-ReadsOnly : (family : IpFamily) → ReadsOnly (read_ip_rules h family)
  unfolding read_ip_rules
  rules-ReadsOnly family =
      bind-ReadsOnly (execute h (rules_command family)) _
        (execute-ReadsOnly (rules_command family) (inl (family, refl)))
        (λ output.
          if-ReadsOnly output.success (needed (h.rules_of_json output.stdout) not_json)
            (fail command_failed) (needed-ReadsOnly (h.rules_of_json output.stdout) not_json)
            read_nothing)

  routes-ReadsOnly : (family : IpFamily) (table : ℕ) → ReadsOnly (read_ip_routes h family table)
  unfolding read_ip_routes
  routes-ReadsOnly family table =
      bind-ReadsOnly (execute h (routes_command family table)) _
        (execute-ReadsOnly (routes_command family table) (inr (inl (family, table, refl))))
        (λ output.
          if-ReadsOnly (not output.success || is_empty output.stdout) (return [])
            (needed (h.routes_of_json output.stdout) not_json) read_nothing
            (needed-ReadsOnly (h.routes_of_json output.stdout) not_json))

  table-ReadsOnly : ReadsOnly (read_host_table h)
  unfolding read_host_table
  table-ReadsOnly =
      bind-ReadsOnly (execute h listing_command) _
        (execute-ReadsOnly listing_command (inr (inr refl))) (λ output. read_nothing)

  module _ {Ip6 : Type 0} ⦃k : Key Ip6⦄ (parse_ip6 : String → Option Ip6) (p : HostPolicy) where
    observe-ReadsOnly : ReadsOnly (observe h parse_ip6 p)
    unfolding observe
    observe-ReadsOnly = bind-ReadsOnly (read_ip_rules h v4) _ (rules-ReadsOnly v4) (λ rules.
        bind-ReadsOnly (read_ip_routes h v4 p.route_table) _ (routes-ReadsOnly v4 p.route_table)
          (λ routes. bind-ReadsOnly (read_host_table h) _ table-ReadsOnly (λ listing.
            let d : HostPolicyDrift =
              with_listing p listing (detect_drift rules routes (is_some listing) p) in
            if-ReadsOnly (is_some p.ipv6) (observe_ipv6 h parse_ip6 p d) (return d)
              (bind-ReadsOnly (read_ip_rules h v6) _ (rules-ReadsOnly v6) (λ rules6.
                bind-ReadsOnly (read_ip_routes h v6 p.route_table) _
                  (routes-ReadsOnly v6 p.route_table) (λ routes6. read_nothing)))
              read_nothing)))

    -- On a host where nothing is found missing, or that cannot be read, the reconciliation runs
    -- commands that list and no other; where something is found missing, it goes on to restore that
    -- and nothing else.
    pub reconcile_with_lem :
        (log : List Command)
        → OnlyRead log (observe h parse_ip6 p log).1
          × ((d : HostPolicyDrift)
              → (observe h parse_ip6 p log).0 ≡ ok d
              → reconcile_with h parse_ip6 p log ≡ (
                  if is_clean d
                  then (ok tt, (observe h parse_ip6 p log).1)
                  else apply_host_policy h p d (observe h parse_ip6 p log).1))
          × ((e : Fault)
              → (observe h parse_ip6 p log).0 ≡ err e
              → reconcile_with h parse_ip6 p log ≡ (err e, (observe h parse_ip6 p log).1))
    unfolding reconcile_with
    reconcile_with_lem log = (
      observe-ReadsOnly log,
      found (observe h parse_ip6 p log),
      failed (observe h parse_ip6 p log),
    )
      where
        found :
            (r : Result Fault HostPolicyDrift × List Command) (d : HostPolicyDrift)
            → r.0 ≡ ok d
            → then_with r (λ d. if is_clean d then return tt else apply_host_policy h p d)
              ≡ (if is_clean d then (ok tt, r.1) else apply_host_policy h p d r.1)
        found (r, after) d e = rw e (chosen (is_clean d))
          where
            chosen :
                (b : Bool)
                → (if b then return tt else apply_host_policy h p d) after
                  ≡ (if b then (ok tt, after) else apply_host_policy h p d after)
            chosen true = refl
            chosen false = refl

        failed :
            (r : Result Fault HostPolicyDrift × List Command) (e : Fault)
            → r.0 ≡ err e
            → then_with r (λ d. if is_clean d then return tt else apply_host_policy h p d)
              ≡ (err e, r.1)
        failed (r, after) e f = rw f refl
