-- ===== src/HostAgent/Ticks.antt =====
-- What the ticks of src/bin/egressy-isolation-agent.rs do again, and what they do not.
use egressy.Base.{
  ℕ, u32_max, ◌≡◌, refl, sym, ap, ◌∙◌, ◌+◌, ◌≤◌, min, inl, inr, ◌⊎◌, ◌↔◌, String, Bool, true, false,
  not, Option, none, some, List, [], ◌∷◌, length, arith, Bool-cases, Option-cases, if◌then◌else◌,
  Map, Key, str_eq, eq_iff,
}
use egressy.Base.Results.{Result, ok, err}
use egressy.Isolation.{IsolationMode, disabled, audit, enforce, IsolationPolicy}
use egressy.Isolation.Render.{
  Networks, CounterValue, effective_mode_of, draw, ipv6_rules, table_text, render_in,
  render_bridge_policy,
}
use egressy.HostAgent.{
  Agent, Command, Fault, then_with, ◌>>◌, return, counters_listing, execute, Output, not_json,
  given_output, needed,
}
use egressy.HostAgent.Violations.{
  NftCounter, read_counters, counters_of, ViolationChange, violation_changes,
}
use egressy.HostAgent.Cache.{Files}
use egressy.HostAgent.Document.{fetch_policy}
use egressy.HostAgent.Loop.{
  AgentState, World, counters_or_default, defaulted, same_fingerprint, policy_fingerprint, isolate,
  apply_policy, is_disabled, isolate_fetched, isolation_tick, Sensed, managed, tick, Cli,
  failures_after, host_policy_failure_is_sustained, host_policy_escalate_after,
}

render_shape :
    {Net Net6 : Type 0} (nets : Networks Net Net6) (policy : IsolationPolicy) (mode : IsolationMode)
    (counters : Map String CounterValue)
    → (render_bridge_policy nets policy mode counters ≡ none)
      ⊎ ((text : String) × (render_bridge_policy nets policy mode counters
            ≡ some (effective_mode_of mode policy.eligible_for_enforcement, text)))
unfolding render_bridge_policy render_in draw
render_shape nets policy mode counters =
    shape (effective_mode_of mode policy.eligible_for_enforcement)
  where
    drawn :
        (m : IsolationMode)
        → (draw nets m policy counters ≡ none)
          ⊎ ((text : String) × (draw nets m policy counters ≡ some (m, text)))
    drawn m = elim (Option-cases (nets.parse policy.subnet)) [
      | inl e ↦ inl (rw (e, draw) refl)
      | inr (subnet, e) ↦ elim (Option-cases (nets.first_host subnet)) [
        | inl f ↦ inl (rw (e, draw) (rw f refl))
        | inr (gateway, f) ↦ elim (Option-cases (ipv6_rules nets m policy.ipv6_subnet)) [
          | inl g ↦ inl (rw (e, draw) (rw f (rw g refl)))
          | inr (ipv6, g) ↦ inr (
            table_text nets m policy counters subnet gateway ipv6,
            rw (e, draw) (rw f (rw g refl)),
          )
        ]
      ]
    ]

    shape :
        (m : IsolationMode)
        → (render_in nets m policy counters ≡ none)
          ⊎ ((text : String) × (render_in nets m policy counters ≡ some (m, text)))
    shape disabled = inr ("", refl)
    shape audit = drawn audit
    shape enforce = drawn enforce

same_fingerprint_lem : (o : Option String) (t : String) → same_fingerprint o t ≡ true → o ≡ some t
same_fingerprint_lem none t h = absurd (ground (arith, h))
same_fingerprint_lem (some u) t h = ground (arith, h, eq_iff u t)

abbrev set_fingerprint :
    String → AgentState → List ViolationChange → Agent (AgentState × List ViolationChange)
set_fingerprint t s made log = (ok (record s { last_policy_fingerprint = some t }, made), log)

abbrev ending :
    String
    → Option String
    → Agent (Unit {0})
    → AgentState
    → List ViolationChange
    → Agent (AgentState × List ViolationChange)
ending t o apply s made =
    if same_fingerprint o t
    then (λ log. (ok (s, made), log))
    else (apply >> set_fingerprint t s made)

-- The end of a tick: the fingerprint is there, or the table is applied and it is set.
settled :
    (t : String) (o : Option String) (apply : Agent (Unit {0})) (s later : AgentState)
    (made changes : List ViolationChange) (log : List Command)
    → s.last_policy_fingerprint ≡ o
    → (ending t o apply s made log).0 ≡ ok (later, changes)
    → later.last_policy_fingerprint ≡ some t
settled t o apply s later made changes log last done = elim (Bool-cases (same_fingerprint o t)) [
  | inl e ↦ ground (arith, e, last, done, same_fingerprint_lem o t e)
  | inr e ↦ applied (apply log) (rw e at done)
]
  where
    applied :
        (r : Result Fault (Unit {0}) × List Command)
        → (then_with r (λ _. set_fingerprint t s made)).0 ≡ ok (later, changes)
        → later.last_policy_fingerprint ≡ some t
    applied (ok u, after) d = ground (arith, d)
    applied (err e, after) d = absurd (ground (arith, d))

module _ {Net Net6 Ip6 : Type 0} ⦃k : Key Ip6⦄ (w : World Net Net6 Ip6) (mode : IsolationMode) where
  -- The mode and the policy that a fingerprint stands for.
  abbrev pub fingerprint_of : IsolationPolicy → String
  fingerprint_of policy =
      policy_fingerprint w.to_json policy (effective_mode_of mode policy.eligible_for_enforcement)

  listed :
      (log : List Command) → (read_counters w.host w.items_of_json log).1 ≡ counters_listing ∷ log
  unfolding read_counters execute
  listed log = answered (w.host.answer log counters_listing)
    where
      read :
          (items : Option (List (Option NftCounter)))
          → (then_with
              (needed items not_json (counters_listing ∷ log))
              (λ i l. (ok (counters_of i []), l))).1
            ≡ counters_listing ∷ log
      read none = refl
      read (some items) = refl

      succeeded :
          (b : Bool) (stdout : String)
          → ((if not b then return [] else (λ l.
                then_with
                  (needed (w.items_of_json stdout) not_json l)
                  (λ i l'. (ok (counters_of i []), l'))))
              (counters_listing ∷ log)).1
            ≡ counters_listing ∷ log
      succeeded true stdout = read (w.items_of_json stdout)
      succeeded false stdout = refl

      answered :
          (o : Option Output)
          → (then_with
              (given_output o, counters_listing ∷ log)
              (λ output. if not output.success then return [] else (λ l.
                then_with
                  (needed (w.items_of_json output.stdout) not_json l)
                  (λ i l'. (ok (counters_of i []), l'))))).1
            ≡ counters_listing ∷ log
      answered none = refl
      answered (some o) = succeeded o.success o.stdout

  counters_listed :
      (log : List Command)
      → (c : Map String CounterValue) × (counters_or_default w log ≡ (ok c, counters_listing ∷ log))
  unfolding counters_or_default
  counters_listed log = kept (read_counters w.host w.items_of_json log) (listed log)
    where
      kept :
          (r : Result Fault (Map String CounterValue) × List Command)
          → r.1 ≡ counters_listing ∷ log
          → (c : Map String CounterValue) × (defaulted r ≡ (ok c, counters_listing ∷ log))
      kept (ok c, later) e = (c, rw e refl)
      kept (err e', later) e = ([], rw e refl)

  -- A policy whose fingerprint is the one last applied runs nothing but the listing of its counters,
  -- whatever they are: the tables in force stay.
  pub isolate_unchanged :
      (s : AgentState) (policy : IsolationPolicy) (log : List Command)
      → s.last_policy_fingerprint ≡ some (fingerprint_of policy)
      → (isolate w mode s policy log).1 ≡ counters_listing ∷ log
  unfolding isolate
  isolate_unchanged s policy log last =
      let (c, counted) = counters_listed log in
      elim (render_shape w.networks policy mode c) [
        | inl e ↦ rw (counted, isolate) (rw e refl)
        | inr (text, e) ↦
            rw (counted, isolate) (rw e (rw last (rw (same (fingerprint_of policy)) refl)))
      ]
    where
      same : (t : String) → str_eq t t ≡ true
      same t = (eq_iff t t).1 refl

  -- A tick that goes through leaves the fingerprint of its policy.
  isolate_marked :
      (s later : AgentState) (policy : IsolationPolicy) (changes : List ViolationChange)
      (log : List Command)
      → (isolate w mode s policy log).0 ≡ ok (later, changes)
      → later.last_policy_fingerprint ≡ some (fingerprint_of policy)
  unfolding isolate
  isolate_marked s later policy changes log done =
      let (c, counted) = counters_listed log in
      elim (render_shape w.networks policy mode c) [
        | inl e ↦ absurd (ground (arith, done, counted, e))
        | inr (text, e) ↦
            settled (fingerprint_of policy) s.last_policy_fingerprint
              (apply_policy w.host (effective_mode_of mode policy.eligible_for_enforcement) text)
              (record s { last_reported_counters = c }) later
              (violation_changes policy c s.last_reported_counters) changes (counters_listing ∷ log)
              refl (rw e at (rw (counted, isolate) at done))
      ]

  -- The isolation is not applied again for the policy that was applied last, of whatever time.
  isolate_again :
      (later : AgentState) (policy : IsolationPolicy) (log : List Command) (time : ℕ)
      → later.last_policy_fingerprint ≡ some (fingerprint_of policy)
      → (isolate w mode later (record policy { generated_at_unix_ms = time }) log).1
        ≡ counters_listing ∷ log
  unfolding policy_fingerprint
  isolate_again later policy log time last =
      isolate_unchanged later (record policy { generated_at_unix_ms = time }) log last

module _ {Net Net6 Ip6 : Type 0} ⦃k : Key Ip6⦄ (w : World Net Net6 Ip6) (cli : Cli) where
  -- The policy that a tick gets from the gateway.
  abbrev pub Fetches : Sensed → IsolationPolicy → Type 0
  Fetches sensed policy =
      fetch_policy w.formats cli.stale_seconds sensed.now_unix_ms sensed.policy_response ≡ ok policy

  isolation_tick_fetched :
      (s : AgentState) (sensed : Sensed) (policy : IsolationPolicy) (log : List Command)
      → is_disabled cli.mode ≡ false
      → Fetches sensed policy
      → isolation_tick w cli s sensed log ≡ isolate w cli.mode s policy log
  unfolding isolation_tick isolate_fetched
  isolation_tick_fetched s sensed policy log on fetched =
      rw (on, isolation_tick) (rw (fetched, isolate_fetched) refl)

  managed_fingerprint :
      (s : AgentState) (files : Files) (sensed : Sensed) (log : List Command)
      → (managed w cli s files sensed log).0.0.last_policy_fingerprint ≡ s.last_policy_fingerprint
  managed_fingerprint s files sensed log = elim (Bool-cases cli.manage_host_policy) [
    | inl e ↦ rw e refl
    | inr e ↦ rw e refl
  ]

  -- Unless the mode is disabled: after a tick that got a policy and went through, a tick that gets the
  -- same policy, of whatever time, runs what reconciles the host's policy, where the agent manages it,
  -- and then only lists the counters; the isolation is not applied again.
  pub tick_again :
      (s later : AgentState) (files then_files : Files) (sensed then_sensed : Sensed)
      (policy : IsolationPolicy) (changes : List ViolationChange) (log after : List Command)
      (time : ℕ)
      → is_disabled cli.mode ≡ false
      → Fetches sensed policy
      → (tick w cli s files sensed log).0.0 ≡ ok (later, changes)
      → Fetches then_sensed (record policy { generated_at_unix_ms = time })
      → (tick w cli later then_files then_sensed after).0.1
        ≡ counters_listing ∷ (managed w cli later then_files then_sensed after).0.1
  unfolding tick
  tick_again s later files then_files sensed then_sensed policy changes log after time on fetched
        done again =
      let ((before, first), stored) = managed w cli s files sensed log in
      let ((now, second), kept) = managed w cli later then_files then_sensed after in
      let marked : later.last_policy_fingerprint ≡ some (fingerprint_of w cli.mode policy) =
        isolate_marked w cli.mode before later policy changes first (
          ap (λ r. r.0) (sym (isolation_tick_fetched before sensed policy first on fetched))
          ∙ done) in
      ap (λ r. r.1)
        (isolation_tick_fetched now then_sensed (record policy { generated_at_unix_ms = time })
          second on again)
      ∙ isolate_again w cli.mode now policy second time
          (managed_fingerprint later then_files then_sensed after ∙ marked)

-- Ticks whose reconciliation failed, one after the other.
abbrev pub fail_all : List Fault → ℕ → ℕ
fail_all [] failures = failures
fail_all (error ∷ errors) failures = fail_all errors (failures_after (err error) failures)

fail_all_lem :
    (errors : List Fault) (failures : ℕ)
    → failures ≤ u32_max
    → fail_all errors failures ≡ min (failures + length errors) u32_max
fail_all_lem [] failures le = omega arith
fail_all_lem (error ∷ errors) failures le =
    omega (arith, fail_all_lem errors (min (failures + 1) u32_max) (omega arith))

-- After a success the agent escalates exactly from the sixth failure in a row on, and it goes on to
-- escalate however many follow.
pub host_policy_failure_is_sustained_iff :
    (errors : List Fault) (failures : ℕ)
    → (host_policy_failure_is_sustained (fail_all errors (failures_after (ok tt) failures)) ≡ true)
      ↔ (host_policy_escalate_after ≤ length errors)
unfolding host_policy_failure_is_sustained
host_policy_failure_is_sustained_iff errors failures =
    ground (arith, fail_all_lem errors 0 (omega arith))
