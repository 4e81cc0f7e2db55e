-- ===== src/HostAgent/KillSwitch.antt =====
-- What the restoring of src/bin/egressy-isolation-agent.rs guarantees on success and on failure.
use mathlib.Core.List.{append_assoc}
use egressy.Base.{
  ◌≡◌, refl, sym, ◌∙◌, Bool, true, false, ◌||◌, List, [], ◌∷◌, ◌++◌, arith, if◌then◌else◌,
}
use egressy.Base.Results.{Result, ok, err}
use egressy.HostPolicy.{HostPolicy, render_nft}
use egressy.HostPolicy.Drift.{HostPolicyDrift}
use egressy.HostAgent.{Command, Fault, Host, then_with, demand, nft_script, success_of}
use egressy.HostAgent.Restore.{replacement, apply_host_policy}
use egressy.HostAgent.Plan.{
  Step, must, may, plan, later_steps, run_plan, apply_host_policy-run_plan,
}

-- The commands of some steps, run after others.
abbrev pub commands_onto : List Step → List Command → List Command
commands_onto [] log = log
commands_onto (must c ∷ steps) log = commands_onto steps (c ∷ log)
commands_onto (may c ∷ steps) log = commands_onto steps (c ∷ log)

abbrev pub kill_switch : HostPolicy → HostPolicyDrift → Command
kill_switch p d =
    if d.nft_table_missing then nft_script (render_nft p) else nft_script (replacement p)

one_more :
    (c : Command) (log after : List Command)
    → (more : List Command) × (after ≡ more ++ (c ∷ log))
    → (more : List Command) × (after ≡ more ++ log)
one_more c log after (more, e) = (more ++ (c ∷ []), e ∙ sym (append_assoc more (c ∷ []) log))

plan_first :
    (p : HostPolicy) (d : HostPolicyDrift)
    → d.nft_table_missing || d.nft_table_stale ≡ true
    → plan p d ≡ must (kill_switch p d) ∷ later_steps p d
plan_first p d =
    first d.nft_table_missing d.nft_table_stale (nft_script (render_nft p))
      (nft_script (replacement p)) (later_steps p d)
  where
    first :
        (b c : Bool) (x y : Command) (later : List Step)
        → b || c ≡ true
        → (if b then must x ∷ [] else (if c then must y ∷ [] else [])) ++ later
          ≡ must (if b then x else y) ∷ later
    first true c x y later e = refl
    first false true x y later e = refl
    first false false x y later e = absurd (ground (arith, e))

module _ (h : Host) where
  run_plan_done :
      (steps : List Step) (log : List Command)
      → (run_plan h steps log).0 ≡ ok tt
      → (run_plan h steps log).1 ≡ commands_onto steps log
  unfolding demand
  run_plan_done [] log e = refl
  run_plan_done (may c ∷ steps) log e = run_plan_done steps (c ∷ log) e
  run_plan_done (must c ∷ steps) log e =
      continued (success_of (h.answer log c)) (run_plan_done steps (c ∷ log)) e
    where
      continued :
          (r : Result Fault (Unit {0}))
          → ((run_plan h steps (c ∷ log)).0 ≡ ok tt
              → (run_plan h steps (c ∷ log)).1 ≡ commands_onto steps (c ∷ log))
          → (then_with (r, c ∷ log) (λ _. run_plan h steps)).0 ≡ ok tt
          → (then_with (r, c ∷ log) (λ _. run_plan h steps)).1 ≡ commands_onto steps (c ∷ log)
      continued (ok u) ih e = ih e
      continued (err e') ih e = absurd (ground (arith, e))

  run_plan_grows :
      (steps : List Step) (log : List Command)
      → (more : List Command) × ((run_plan h steps log).1 ≡ more ++ log)
  unfolding demand
  run_plan_grows [] log = ([], refl)
  run_plan_grows (may c ∷ steps) log =
      one_more c log (run_plan h steps (c ∷ log)).1 (run_plan_grows steps (c ∷ log))
  run_plan_grows (must c ∷ steps) log =
      continued (success_of (h.answer log c)) (run_plan_grows steps (c ∷ log))
    where
      continued :
          (r : Result Fault (Unit {0}))
          → (more : List Command) × ((run_plan h steps (c ∷ log)).1 ≡ more ++ (c ∷ log))
          → (more : List Command) × ((then_with (r, c ∷ log) (λ _. run_plan h steps)).1
              ≡ more ++ log)
      continued (ok u) ih = one_more c log (run_plan h steps (c ∷ log)).1 ih
      continued (err e') ih = (c ∷ [], refl)

  first_step :
      (c : Command) (steps : List Step) (log : List Command)
      → ((more : List Command) × ((run_plan h (must c ∷ steps) log).1 ≡ more ++ (c ∷ log)))
        × ((e : Fault)
            → success_of (h.answer log c) ≡ err e
            → run_plan h (must c ∷ steps) log ≡ (err e, c ∷ log))
  unfolding demand
  first_step c steps log = continued (success_of (h.answer log c)) (run_plan_grows steps (c ∷ log))
    where
      continued :
          (r : Result Fault (Unit {0}))
          → (more : List Command) × ((run_plan h steps (c ∷ log)).1 ≡ more ++ (c ∷ log))
          → ((more : List Command) × ((then_with (r, c ∷ log) (λ _. run_plan h steps)).1
                ≡ more ++ (c ∷ log)))
            × ((e : Fault)
                → r ≡ err e
                → then_with (r, c ∷ log) (λ _. run_plan h steps) ≡ (err e, c ∷ log))
      continued (ok u) ih = (ih, λ e r. absurd (ground (arith, r)))
      continued (err e') ih = (([], refl), λ e r. rw r refl)

  module _ (p : HostPolicy) (d : HostPolicyDrift) (log : List Command) where
    -- The restoring reports success only when every command that its plan holds was run, in the
    -- plan's order and with nothing between them.
    pub apply_host_policy_done :
        (apply_host_policy h p d log).0 ≡ ok tt
        → (apply_host_policy h p d log).1 ≡ commands_onto (plan p d) log
    apply_host_policy_done =
        rw (apply_host_policy-run_plan h p d log) (run_plan_done (plan p d) log)

    -- Where the firewall's table is missing or stale, the script that installs it is the first
    -- command; and when it fails, it is the only one and its failure is reported.
    pub apply_host_policy-kill_switch :
        d.nft_table_missing || d.nft_table_stale ≡ true
        → ((more : List Command) × ((apply_host_policy h p d log).1
              ≡ more ++ (kill_switch p d ∷ log)))
          × ((e : Fault)
              → success_of (h.answer log (kill_switch p d)) ≡ err e
              → apply_host_policy h p d log ≡ (err e, kill_switch p d ∷ log))
    apply_host_policy-kill_switch absent =
        rw (apply_host_policy-run_plan h p d log)
          (rw (plan_first p d absent) (first_step (kill_switch p d) (later_steps p d) log))
