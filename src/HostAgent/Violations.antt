-- ===== src/HostAgent/Violations.antt =====
-- src/bin/egressy-isolation-agent.rs: what lateral traffic is new since the counters were last read.
use egressy.Base.{
  ℕ, String, Bool, not, ◌||◌, Option, none, some, List, [], ◌∷◌, ◌++◌, ltb, if◌then◌else◌, Map,
  lookup, insert, string_key,
}
use egressy.Isolation.{IsolationPolicy, IsolationParticipant}
use egressy.Isolation.Render.{CounterValue, counter_or_default, all_pairs, pair_name}
use egressy.HostAgent.{Host, Agent, ◌>>=◌, return, needed, not_json, execute, counters_listing}

pub record ViolationChange : Type 0 where
  pub source_id : String
  pub destination_id : String
  pub packets : ℕ
  pub bytes : ℕ

pub record NftCounter : Type 0 where
  pub name : String
  pub packets : ℕ
  pub bytes : ℕ

abbrev pub label_of : IsolationParticipant → String
label_of p = elim p.isolation_id [ none ↦ p.name | some identity ↦ identity ]

abbrev pub grown : CounterValue → CounterValue → Bool
grown value old = ltb old.packets value.packets || ltb old.bytes value.bytes

-- A change of one counter, if it grew.
abbrev pub change_of : String → String → CounterValue → CounterValue → List ViolationChange
change_of source_id destination_id value old =
    if grown value old
    then record {
      source_id = source_id;
      destination_id = destination_id;
      packets = value.packets;
      bytes = value.bytes;
    }
      ∷ []
    else []

module _ (current previous : Map String CounterValue) where
  abbrev pub change_at : String → String → String → List ViolationChange
  change_at counter source_id destination_id =
      change_of source_id destination_id (counter_or_default (lookup counter current))
        (counter_or_default (lookup counter previous))

  unfoldable pub pair_changes :
      List (IsolationParticipant × IsolationParticipant) → List ViolationChange
  pair_changes [] = []
  pair_changes ((source, destination) ∷ more) =
      change_at (pair_name (source, destination)) (label_of source) (label_of destination)
      ++ pair_changes more

unfoldable pub violation_changes :
    IsolationPolicy → Map String CounterValue → Map String CounterValue → List ViolationChange
unfolding pair_changes
violation_changes policy current previous =
    pair_changes current previous (all_pairs policy.participants policy.participants)
    ++ (change_at current previous "isolation_unresolved" "unresolved" "unresolved"
        ++ change_at current previous "isolation_spoofed" "spoofed" "spoofed")

-- The items of nft's document: a counter, or something else.
unfoldable pub counters_of :
    List (Option NftCounter) → Map String CounterValue → Map String CounterValue
counters_of [] m = m
counters_of (none ∷ items) m = counters_of items m
counters_of (some c ∷ items) m =
    counters_of items (insert c.name (record { packets = c.packets; bytes = c.bytes }) m)

module _ (h : Host) (items_of_json : String → Option (List (Option NftCounter))) where
  unfoldable pub read_counters : Agent (Map String CounterValue)
  read_counters = do
    output ← execute h counters_listing
    if not output.success then return [] else (do
      items ← needed (items_of_json output.stdout) not_json
      return (counters_of items []))
