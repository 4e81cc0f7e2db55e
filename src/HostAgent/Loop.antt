-- ===== src/HostAgent/Loop.antt =====
-- src/bin/egressy-isolation-agent.rs: the arguments that the agent accepts, and a tick of its loop.
use egressy.Base.{
  ℕ, u32_max, ◌+◌, min, String, Bool, true, false, not, ◌||◌, ◌&&◌, Option, none, some, List, [],
  ◌∷◌, append, concat, ltb, leb, ◌==◌, if◌then◌else◌, str_eq, Map, Key, string_key,
}
use egressy.Base.Results.{Result, ok, err}
use egressy.HostPolicy.{HostPolicy}
use egressy.Isolation.{IsolationMode, disabled, audit, enforce, IsolationPolicy}
use egressy.Isolation.Render.{Networks, CounterValue, render_bridge_policy}
use egressy.HostAgent.{
  Host, Agent, Command, Fault, ◌>>=◌, ◌>>◌, return, fail, panicked, run_nft, table_exists, provided,
}
use egressy.HostAgent.Restore.{reconcile_with}
use egressy.HostAgent.Document.{Formats, Response, fetch_host_policy_bytes, fetch_policy}
use egressy.HostAgent.Cache.{Files, Disk, resolve_host_policy}
use egressy.HostAgent.Violations.{NftCounter, read_counters, violation_changes, ViolationChange}

pub record Cli : Type 0 where
  pub policy_url : String
  pub mode : IsolationMode
  pub interval_seconds : ℕ
  pub stale_seconds : ℕ
  pub manage_host_policy : Bool
  pub host_policy_url : Option String
  pub host_policy_cache : Option String

-- The package's reading of a URL.
pub record Url : Type 0 where
  pub scheme : String
  pub host : Option String

abbrev pub host_policy_path : String
host_policy_path = "/api/v2/host-policy"

abbrev pub is_loopback : Option String → Bool
is_loopback none = false
is_loopback (some host) = str_eq host "127.0.0.1" || str_eq host "localhost"

abbrev pub is_local : Option Url → Bool
is_local none = false
is_local (some url) = str_eq url.scheme "http" && is_loopback url.host

module _ (parse_url : String → Option Url) (with_path : String → String → String) where
  -- The URL with this path and without a query, where none is given.
  unfoldable pub host_policy_url_of : Cli → Option String
  host_policy_url_of cli = elim cli.host_policy_url [
    | some explicit ↦ some explicit
    | none ↦ elim (parse_url cli.policy_url) [
      | none ↦ none
      | some url ↦ some (with_path cli.policy_url host_policy_path)
    ]
  ]

  abbrev pub is_local_text : Option String → Bool
  is_local_text none = false
  is_local_text (some url) = is_local (parse_url url)

  unfoldable pub validate : Cli → Bool
  unfolding host_policy_url_of
  validate cli =
      is_local (parse_url cli.policy_url)
      && (is_local_text (host_policy_url_of cli)
          && not ((cli.interval_seconds == 0) || ltb cli.stale_seconds cli.interval_seconds))

abbrev pub host_policy_escalate_after : ℕ
host_policy_escalate_after = 6

unfoldable pub host_policy_failure_is_sustained : ℕ → Bool
host_policy_failure_is_sustained consecutive_failures =
    leb host_policy_escalate_after consecutive_failures

abbrev pub mode_name : IsolationMode → String
mode_name disabled = "Disabled"
mode_name audit = "Audit"
mode_name enforce = "Enforce"

-- The JSON of the policy without its time.
unfoldable pub policy_fingerprint :
    (IsolationPolicy → String) → IsolationPolicy → IsolationMode → String
policy_fingerprint to_json policy effective_mode =
    concat
      (mode_name effective_mode ∷ ":" ∷ to_json (record policy { generated_at_unix_ms = 0 }) ∷ [])

abbrev pub delete_table : String
delete_table = "delete table bridge egressy_isolation\n"

abbrev pub is_disabled : IsolationMode → Bool
is_disabled disabled = true
is_disabled _ = false

unfoldable pub apply_policy : Host → IsolationMode → String → Agent (Unit {0})
apply_policy h mode rules = do
  exists ← table_exists h
  if is_disabled mode
      then provided exists (run_nft h delete_table)
      else run_nft h (if exists then append delete_table rules else rules)

-- What the loop keeps from tick to tick.
pub record AgentState : Type 0 where
  pub last_policy_fingerprint : Option String
  pub last_reported_counters : Map String CounterValue
  pub host_policy_failures : ℕ

abbrev pub same_fingerprint : Option String → String → Bool
same_fingerprint none fingerprint = false
same_fingerprint (some last) fingerprint = str_eq last fingerprint

-- The packages and the host that a tick uses.
pub record World (Net Net6 Ip6 : Type 0) : Type 0 where
  pub host : Host
  pub formats : Formats
  pub disk : Disk
  pub networks : Networks Net Net6
  pub parse_ip6 : String → Option Ip6
  pub items_of_json : String → Option (List (Option NftCounter))
  pub to_json : IsolationPolicy → String

-- What the gateway answers on a tick, and the time.
pub record Sensed : Type 0 where
  pub host_policy_response : Result Fault Response
  pub policy_response : Result Fault Response
  pub now_unix_ms : ℕ

abbrev pub rendered : Option (IsolationMode × String) → Agent (IsolationMode × String)
rendered none = fail panicked
rendered (some table) = return table

abbrev pub defaulted :
    Result Fault (Map String CounterValue) × List Command
    → Result Fault (Map String CounterValue) × List Command
defaulted (ok counters, later) = (ok counters, later)
defaulted (err error, later) = (ok [], later)

abbrev pub failures_after : Result Fault (Unit {0}) → ℕ → ℕ
failures_after (ok u) failures = 0
failures_after (err error) failures = min (failures + 1) u32_max

module _ {Net Net6 Ip6 : Type 0} ⦃k : Key Ip6⦄ (w : World Net Net6 Ip6) where
  -- A failure that came with the cached policy is still one.
  abbrev pub reported : Option Fault → Agent (Unit {0})
  reported none = return tt
  reported (some error) = fail error

  abbrev pub reconcile_resolved : Result Fault (HostPolicy × Option Fault) → Agent (Unit {0})
  reconcile_resolved (err error) = fail error
  reconcile_resolved (ok (policy, failure)) = do
    reconcile_with w.host w.parse_ip6 policy
    reported failure

  -- The result, the files and the commands.
  unfoldable pub reconcile_host_policy :
      Result Fault Response
      → Option String
      → Files
      → List Command
      → (Result Fault (Unit {0}) × List Command) × Files
  reconcile_host_policy sent cache files log =
      let (resolved, stored) =
        resolve_host_policy w.disk w.formats (fetch_host_policy_bytes w.formats sent) cache files in
      (reconcile_resolved resolved log, stored)

  unfoldable pub counters_or_default : Agent (Map String CounterValue)
  counters_or_default log = defaulted (read_counters w.host w.items_of_json log)

  -- A policy that is there: the last one applied is not applied again.
  unfoldable pub isolate :
      IsolationMode → AgentState → IsolationPolicy → Agent (AgentState × List ViolationChange)
  unfolding counters_or_default
  isolate mode s policy = do
    counters ← counters_or_default
    (effective_mode, rules) ← rendered (render_bridge_policy w.networks policy mode counters)
    let fingerprint = policy_fingerprint w.to_json policy effective_mode
    let counted = record s { last_reported_counters = counters }
    let changes = violation_changes policy counters s.last_reported_counters
    if same_fingerprint s.last_policy_fingerprint fingerprint
        then return (counted, changes)
        else (apply_policy w.host effective_mode rules
            >> return (record counted { last_policy_fingerprint = some fingerprint }, changes))

  unfoldable pub isolate_fetched :
      IsolationMode
      → AgentState
      → Result Fault IsolationPolicy
      → Agent (AgentState × List ViolationChange)
  unfolding isolate
  isolate_fetched mode s (ok policy) = isolate mode s policy
  isolate_fetched mode s (err error) = return (s, [])

  unfoldable pub isolation_tick :
      Cli → AgentState → Sensed → Agent (AgentState × List ViolationChange)
  unfolding isolate
  isolation_tick cli s sensed =
      if is_disabled cli.mode
      then apply_policy w.host disabled ""
        >> return (record s { last_policy_fingerprint = some "Disabled:" }, [])
      else isolate_fetched cli.mode s
          (fetch_policy w.formats cli.stale_seconds sensed.now_unix_ms sensed.policy_response)

  -- The host's policy, where the agent manages it.
  abbrev pub managed :
      Cli → AgentState → Files → Sensed → List Command → (AgentState × List Command) × Files
  managed cli s files sensed log =
      if cli.manage_host_policy
      then (let ((result, after), stored) =
            reconcile_host_policy sensed.host_policy_response cli.host_policy_cache files log in
          (
            (
              record s { host_policy_failures = failures_after result s.host_policy_failures },
              after,
            ),
            stored,
          ))
      else ((s, log), files)

  unfoldable pub tick :
      Cli
      → AgentState
      → Files
      → Sensed
      → List Command
      → (Result Fault (AgentState × List ViolationChange) × List Command) × Files
  unfolding reconcile_host_policy isolation_tick
  tick cli s files sensed log =
      let ((later, after), stored) = managed cli s files sensed log in
      (isolation_tick cli later sensed after, stored)
