-- ===== src/HostAgent/Plan.antt =====
-- The commands with which src/bin/egressy-isolation-agent.rs restores the host's policy, as one list.
use egressy.Base.{
  ◌≡◌, refl, sym, ◌∙◌, String, Bool, true, false, ◌||◌, Option, none, some, List, [], ◌∷◌, ◌++◌,
  if◌then◌else◌,
}
use egressy.Base.Results.{Result, ok, err}
use egressy.HostPolicy.{
  HostPolicy, HostPolicyIpv6, rule_add_args, route_replace_args, ipv6_rule_add_args,
  ipv6_route_replace_args, render_nft,
}
use egressy.HostPolicy.Drift.{HostPolicyDrift}
use egressy.HostAgent.{
  Command, Fault, Host, Agent, then_with, ◌>>◌, return, ignore, provided, plain, nft_script, demand,
  run_ip, run_nft,
}
use egressy.HostAgent.Restore.{
  rule_del_args, ipv6_rule_del_args, replacement, run_each, restore_table, restore_rule,
  clear_ipv6_rule, run_some, restore_ipv6_rule, apply_host_policy,
}

-- A command that must succeed, or one whose failure does not matter.
pub data Step : Type 0 where
  must may : Command → Step

abbrev pub steps_when : Bool → List Step → List Step
steps_when true steps = steps
steps_when false steps = []

abbrev pub each_must : List (List String) → List Step
each_must [] = []
each_must (args ∷ more) = must (plain "ip" args) ∷ each_must more

abbrev pub table_steps : HostPolicy → HostPolicyDrift → List Step
table_steps p d =
    if d.nft_table_missing
    then must (nft_script (render_nft p)) ∷ []
    else (if d.nft_table_stale then must (nft_script (replacement p)) ∷ [] else [])

abbrev pub clear_steps : HostPolicy → Option HostPolicyIpv6 → List Step
clear_steps p none = []
clear_steps p (some v) = may (plain "ip" (ipv6_rule_del_args p v)) ∷ []

abbrev pub some_steps : Option (List String) → List Step
some_steps none = []
some_steps (some args) = must (plain "ip" args) ∷ []

-- What comes after the firewall: the rule, the routes, and then IPv6, its routes before its rule.
abbrev pub later_steps : HostPolicy → HostPolicyDrift → List Step
later_steps p d =
    steps_when d.rule_missing
      (may (plain "ip" (rule_del_args p)) ∷ must (plain "ip" (rule_add_args p)) ∷ [])
    ++ (steps_when (d.subnet_route_missing || d.default_route_missing)
          (each_must (route_replace_args p))
        ++ (steps_when d.ipv6_routes_missing (each_must (ipv6_route_replace_args p))
            ++ steps_when d.ipv6_rule_missing
                (clear_steps p p.ipv6 ++ some_steps (ipv6_rule_add_args p))))

abbrev pub plan : HostPolicy → HostPolicyDrift → List Step
plan p d = table_steps p d ++ later_steps p d

module _ (h : Host) where
  -- Runs the steps in order, up to the first failure that matters.
  abbrev pub run_plan : List Step → Agent (Unit {0})
  run_plan [] = return tt
  run_plan (must c ∷ steps) = demand h c >> run_plan steps
  run_plan (may c ∷ steps) = ignore (demand h c) >> run_plan steps

  abbrev pub Same : Agent (Unit {0}) → Agent (Unit {0}) → Type 0
  Same m n = (log : List Command) → m log ≡ n log

  seq-Same : (m m' n n' : Agent (Unit {0})) → Same m m' → Same n n' → Same (m >> n) (m' >> n')
  seq-Same m m' n n' e f log = rw (e log) (continued (m' log))
    where
      continued :
          (r : Result Fault (Unit {0}) × List Command)
          → then_with r (λ _. n) ≡ then_with r (λ _. n')
      continued (ok u, later) = f later
      continued (err e', later) = refl

  seq_assoc : (m n k : Agent (Unit {0})) → Same ((m >> n) >> k) (m >> (n >> k))
  seq_assoc m n k log = continued (m log)
    where
      continued :
          (r : Result Fault (Unit {0}) × List Command)
          → then_with (then_with r (λ _. n)) (λ _. k)
            ≡ then_with r (λ _ l. then_with (n l) (λ _. k))
      continued (ok u, later) = refl
      continued (err e, later) = refl

  run_plan-append : (s t : List Step) → Same (run_plan (s ++ t)) (run_plan s >> run_plan t)
  run_plan-append [] t log = refl
  run_plan-append (must c ∷ s) t log =
      seq-Same (demand h c) (demand h c) (run_plan (s ++ t)) (run_plan s >> run_plan t) (λ l. refl)
        (run_plan-append s t) log
      ∙ sym (seq_assoc (demand h c) (run_plan s) (run_plan t) log)
  run_plan-append (may c ∷ s) t log =
      seq-Same (ignore (demand h c)) (ignore (demand h c)) (run_plan (s ++ t))
        (run_plan s >> run_plan t) (λ l. refl) (run_plan-append s t) log
      ∙ sym (seq_assoc (ignore (demand h c)) (run_plan s) (run_plan t) log)

  -- Two parts of a plan are two parts of the program.
  parts :
      (m n : Agent (Unit {0})) (s t : List Step)
      → Same m (run_plan s)
      → Same n (run_plan t)
      → Same (m >> n) (run_plan (s ++ t))
  parts m n s t e f log =
      seq-Same m (run_plan s) n (run_plan t) e f log ∙ sym (run_plan-append s t log)

  last_step : (c : Command) → Same (demand h c) (run_plan (must c ∷ []))
  last_step c log = kept (demand h c log)
    where
      kept : (r : Result Fault (Unit {0}) × List Command) → r ≡ then_with r (λ _. return tt)
      kept (ok u, later) = refl
      kept (err e, later) = refl

  provided-steps_when :
      (b : Bool) (m : Agent (Unit {0})) (s : List Step)
      → Same m (run_plan s)
      → Same (provided b m) (run_plan (steps_when b s))
  provided-steps_when true m s e log = e log
  provided-steps_when false m s e log = refl

  run_each-each_must : (all : List (List String)) → Same (run_each h all) (run_plan (each_must all))
  unfolding run_each run_ip
  run_each-each_must [] log = refl
  run_each-each_must (args ∷ more) log =
      seq-Same (demand h (plain "ip" args)) (demand h (plain "ip" args)) (run_each h more)
        (run_plan (each_must more)) (λ l. refl) (run_each-each_must more) log

  module _ (p : HostPolicy) (d : HostPolicyDrift) where
    restore_table-table_steps : Same (restore_table h p d) (run_plan (table_steps p d))
    unfolding restore_table run_nft
    restore_table-table_steps = chosen d.nft_table_missing d.nft_table_stale
      where
        chosen :
            (b c : Bool)
            → Same
                (if b
                  then demand h (nft_script (render_nft p))
                  else (if c then demand h (nft_script (replacement p)) else return tt))
                (run_plan (
                  if b
                  then must (nft_script (render_nft p)) ∷ []
                  else (if c then must (nft_script (replacement p)) ∷ [] else [])))
        chosen true c log = last_step (nft_script (render_nft p)) log
        chosen false true log = last_step (nft_script (replacement p)) log
        chosen false false log = refl

    restore_rule_lem :
        Same
          (restore_rule h p)
          (run_plan (may (plain "ip" (rule_del_args p)) ∷ must (plain "ip" (rule_add_args p)) ∷ []))
    unfolding restore_rule run_ip
    restore_rule_lem log =
        seq-Same (ignore (demand h (plain "ip" (rule_del_args p))))
          (ignore (demand h (plain "ip" (rule_del_args p))))
          (demand h (plain "ip" (rule_add_args p)))
          (run_plan (must (plain "ip" (rule_add_args p)) ∷ [])) (λ l. refl)
          (last_step (plain "ip" (rule_add_args p))) log

    restore_ipv6_rule_lem :
        Same
          (restore_ipv6_rule h p)
          (run_plan (clear_steps p p.ipv6 ++ some_steps (ipv6_rule_add_args p)))
    unfolding restore_ipv6_rule run_ip demand
    restore_ipv6_rule_lem =
        parts (clear_ipv6_rule h p p.ipv6) (run_some h (ipv6_rule_add_args p))
          (clear_steps p p.ipv6) (some_steps (ipv6_rule_add_args p)) (cleared p.ipv6)
          (added (ipv6_rule_add_args p))
      where
        cleared :
            (o : Option HostPolicyIpv6) → Same (clear_ipv6_rule h p o) (run_plan (clear_steps p o))
        cleared none log = refl
        cleared (some v) log = refl

        added : (o : Option (List String)) → Same (run_some h o) (run_plan (some_steps o))
        added none log = refl
        added (some args) log = last_step (plain "ip" args) log

    -- Restoring what is missing runs these commands in this order, and stops at the first that
    -- fails, unless it is one that only clears what is put back next.
    pub apply_host_policy-run_plan :
        (log : List Command) → apply_host_policy h p d log ≡ run_plan (plan p d) log
    unfolding apply_host_policy
    apply_host_policy-run_plan =
        parts (restore_table h p d) _ (table_steps p d) _ restore_table-table_steps (
          parts (provided d.rule_missing (restore_rule h p)) _ (steps_when d.rule_missing _) _
            (provided-steps_when d.rule_missing (restore_rule h p) _ restore_rule_lem)
            (parts
              (provided (d.subnet_route_missing || d.default_route_missing)
                (run_each h (route_replace_args p)))
              _
              (steps_when (d.subnet_route_missing || d.default_route_missing)
                (each_must (route_replace_args p)))
              _
              (provided-steps_when (d.subnet_route_missing || d.default_route_missing)
                (run_each h (route_replace_args p)) _ (run_each-each_must (route_replace_args p)))
              (parts (provided d.ipv6_routes_missing (run_each h (ipv6_route_replace_args p)))
                (provided d.ipv6_rule_missing (restore_ipv6_rule h p))
                (steps_when d.ipv6_routes_missing (each_must (ipv6_route_replace_args p)))
                (steps_when d.ipv6_rule_missing
                  (clear_steps p p.ipv6 ++ some_steps (ipv6_rule_add_args p)))
                (provided-steps_when d.ipv6_routes_missing (run_each h (ipv6_route_replace_args p))
                  _ (run_each-each_must (ipv6_route_replace_args p)))
                (provided-steps_when d.ipv6_rule_missing (restore_ipv6_rule h p) _
                  restore_ipv6_rule_lem))))
