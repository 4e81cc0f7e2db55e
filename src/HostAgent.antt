-- ===== src/HostAgent.antt =====
-- src/bin/egressy-isolation-agent.rs: the agent of the host. Each process it runs is a command; what
-- became of it may depend on all that ran before, and is an argument, as is the reading of JSON.
pub mod Restore
pub mod Document
pub mod Cache
pub mod Violations
pub mod Loop
pub mod Plan
pub mod KillSwitch
pub mod Observing
pub mod Remembered
pub mod Ticks
use egressy.Base.{
  ℕ, String, Bool, true, false, Option, none, some, List, [], ◌∷◌, decimal, is_empty, Map,
  if◌then◌else◌, append, ◌||◌, not,
}
use egressy.Base.Results.{Result, ok, err}
use egressy.HostPolicy.{host_policy_table}
use egressy.HostPolicy.Drift.{IpRuleEntry, IpRouteEntry}

-- A process: its program, its arguments and what is written to it.
pub record Command : Type 0 where
  pub program : String
  pub args : List String
  pub stdin : String

pub record Output : Type 0 where
  pub success : Bool
  pub stdout : String

pub data Fault : Type 0 where
  not_run command_failed not_json unsupported invalid incomplete too_large stale not_fetched
        not_stored panicked :
      Fault

-- What the world answers: nothing where the process could not be run.
pub record Host : Type 0 where
  pub answer : List Command → Command → Option Output
  pub rules_of_json : String → Option (List IpRuleEntry)
  pub routes_of_json : String → Option (List IpRouteEntry)

-- A computation that runs commands; the last one that ran stands first.
abbrev pub Agent : Type 0 → Type 0
Agent A = List Command → Result Fault A × List Command

abbrev pub then_with :
    {A B : Type 0} → Result Fault A × List Command → (A → Agent B) → Result Fault B × List Command
then_with (ok a, log) f = f a log
then_with (err e, log) f = (err e, log)

infixl 5 ◌>>=◌ ◌>>◌
abbrev pub ◌>>=◌ : {A B : Type 0} → Agent A → (A → Agent B) → Agent B
(m >>= f) log = then_with (m log) f

abbrev pub ◌>>◌ : {B : Type 0} → Agent (Unit {0}) → Agent B → Agent B
(m >> n) log = then_with (m log) (λ _. n)

abbrev pub return : {A : Type 0} → A → Agent A
return a log = (ok a, log)

abbrev pub fail : {A : Type 0} → Fault → Agent A
fail e log = (err e, log)

abbrev pub needed : {A : Type 0} → Option A → Fault → Agent A
needed none e log = (err e, log)
needed (some a) e log = (ok a, log)

-- `let _ = ..`.
abbrev pub disregard :
    Result Fault (Unit {0}) × List Command → Result Fault (Unit {0}) × List Command
disregard (r, log) = (ok tt, log)

abbrev pub ignore : Agent (Unit {0}) → Agent (Unit {0})
ignore m log = disregard (m log)

abbrev pub provided : Bool → Agent (Unit {0}) → Agent (Unit {0})
provided true m = m
provided false m = return tt

pub data IpFamily : Type 0 where
  v4 v6 : IpFamily

unfoldable pub flag : IpFamily → String
flag v4 = "-4"
flag v6 = "-6"

abbrev pub plain : String → List String → Command
plain program args = record { program = program; args = args; stdin = "" }

abbrev pub nft_script : String → Command
nft_script script = record { program = "nft"; args = "-f" ∷ "-" ∷ []; stdin = script }

abbrev pub rules_command : IpFamily → Command
unfolding flag
rules_command family = plain "ip" ("-j" ∷ flag family ∷ "rule" ∷ "show" ∷ [])

abbrev pub routes_command : IpFamily → ℕ → Command
unfolding flag
routes_command family table =
    plain "ip" ("-j" ∷ flag family ∷ "route" ∷ "show" ∷ "table" ∷ decimal table ∷ [])

abbrev pub listing_command : Command
listing_command = plain "nft" ("list" ∷ "table" ∷ "inet" ∷ host_policy_table ∷ [])

abbrev pub isolation_listing : Command
isolation_listing = plain "nft" ("list" ∷ "table" ∷ "bridge" ∷ "egressy_isolation" ∷ [])

abbrev pub counters_listing : Command
counters_listing = plain "nft" ("-j" ∷ "list" ∷ "table" ∷ "bridge" ∷ "egressy_isolation" ∷ [])

abbrev pub success_of : Option Output → Result Fault (Unit {0})
success_of none = err not_run
success_of (some o) = if o.success then ok tt else err command_failed

abbrev pub given_output : Option Output → Result Fault Output
given_output none = err not_run
given_output (some o) = ok o

module _ (h : Host) where
  -- `Command::output`.
  unfoldable pub execute : Command → Agent Output
  execute c log = (given_output (h.answer log c), c ∷ log)

  -- A process that must succeed.
  unfoldable pub demand : Command → Agent (Unit {0})
  demand c log = (success_of (h.answer log c), c ∷ log)

  unfoldable pub run_ip : List String → Agent (Unit {0})
  unfolding demand
  run_ip args = demand (plain "ip" args)

  unfoldable pub run_nft : String → Agent (Unit {0})
  unfolding demand
  run_nft script = demand (nft_script script)

  unfoldable pub read_ip_rules : IpFamily → Agent (List IpRuleEntry)
  unfolding execute
  read_ip_rules family = do
    output ← execute (rules_command family)
    if output.success then needed (h.rules_of_json output.stdout) not_json else fail command_failed

  unfoldable pub read_ip_routes : IpFamily → ℕ → Agent (List IpRouteEntry)
  unfolding execute
  read_ip_routes family table = do
    output ← execute (routes_command family table)
    if not output.success || is_empty output.stdout
        then return []
        else needed (h.routes_of_json output.stdout) not_json

  unfoldable pub read_host_table : Agent (Option String)
  unfolding execute
  read_host_table = do
    output ← execute listing_command
    return (if output.success then some output.stdout else none)

  unfoldable pub table_exists : Agent Bool
  unfolding execute
  table_exists = do output ← execute isolation_listing; return output.success
