-- ===== src/Lib.antt =====
-- Verification of the egressy gateway (Rust): the core that decides, without its I/O.
--
-- The program keeps one canonical snapshot of a VPN gateway (src/domain.rs) behind a publisher
-- (src/control.rs), which other tasks call with what they observe. The DNS forwarder (src/dns.rs)
-- admits queries per client, answers what it can from a cache (src/dns_cache.rs), and folds the
-- outcomes into a debounced verdict that goes to the publisher. Port forwards come from a NAT-PMP
-- client (src/natpmp.rs), and failed work is tried again after a delay (src/recovery.rs). On the host
-- an agent (src/bin/egressy-isolation-agent.rs) keeps the published egress policy
-- (src/host_policy.rs) and the isolation of the clients from each other (src/isolation.rs) in force.
-- A tunnel is described by a WireGuard profile (src/wireguard.rs).
--
-- Which file models which part:
-- Domain: the checks and transitions of src/domain.rs; Domain/Window: push_transition and
--   busiest_components_oldest; Domain/Aggregate: CanonicalSnapshot and its derive_aggregate.
-- Control: StatePublisher with observe, mutate and emit; the lock makes the calls a sequence, and
--   what was sent to the channels is part of the state. Control/Sequence is about any sequence of
--   calls, Control/Checks about one.
-- Dns/Permits: QueryPermits of src/dns.rs. The counters that clients and slots share are cells of
--   a heap; Dns/Permits/Table is about the clients' table; Dns/Permits/Interleaving has the steps of the tasks as a relation, in any order.
-- Dns/Health: DnsHealthState of src/dns.rs; its `record` is `note`.
-- Dns/Cache: DnsCache of src/dns_cache.rs; its `lookup` is `answer_from`. The codec of the DNS
--   library is a parameter.
-- Natpmp: the client of src/natpmp.rs; what became of each request is an argument.
-- Recovery: retry_delay_seconds of src/recovery.rs; the jitter is an argument.
-- State and Domain/Status: the data of src/state.rs and the carried fields of the snapshot.
-- Enforcement: EnforcementCoordinator of src/enforcement.rs; what nft does is an argument of each
-- call. Enforcement/Counters has the accumulators, and client_counter_name of src/host.rs.
-- Profiles: ProfileStore of src/profiles.rs; the table is a list of rows, and the cipher, the JSON
-- and the parser of profiles are parameters.
-- HostPolicy: src/host_policy.rs. HostPolicy/Drift has the detection of what is missing,
--   HostPolicy/Detection and HostPolicy/Rendering are about it.
-- Isolation: src/isolation.rs: the data and what is read from labels. Isolation/Screening is
--   screen_kubernetes_candidates, Isolation/Policy and Isolation/Building are build_policy,
--   Isolation/Render is render_bridge_policy. Isolation/Binding, Complete, Allowances, Consent,
--   Containers, Pods and Texts are about them.
-- HostAgent: src/bin/egressy-isolation-agent.rs. Each process is a command, whose answer may depend on
--   all that ran before. HostAgent/Restore is reconcile_with and apply_host_policy, HostAgent/Document
--   what is fetched, HostAgent/Cache the cached policy, HostAgent/Violations the counters, and
--   HostAgent/Loop a tick of the main loop. HostAgent/Plan, KillSwitch, Observing, Remembered and
--   Ticks are about them.
-- Wireguard: the data and the values of directives of src/wireguard.rs. Wireguard/Directives sets
--   them, Wireguard/Parsing is WireGuardProfile::parse, Wireguard/Changes the rendering and diff.
--   Wireguard/Redaction is what is shown of a profile. Wireguard/Accepted, Kinds and
--   Secrecy are about them.
-- Base: Boolean tests, lists, words, maps, text and decimal numbers. Tests: concrete inputs.
--
-- Times are numbers of milliseconds (unix_ms) or nanoseconds (Instant, Duration), and every call
-- reads the clock once, as an argument. Words keep their wrap-around or saturation written out. The
-- loops with fuel are make_room, for which the window's length is enough, since each round removes
-- an entry, and await_reply, for which 4 rounds are, since the wait doubles from 250 ms to 2 s.
--
-- Not modelled: the sockets and the retry ladder of the forwarder, the runtime's tasks, the text of
-- the rules that src/host.rs renders, the listing of revisions, the editing of a WireGuard profile,
-- the local zone, the profile manager, the notifications, the history, the configuration, the probes,
-- the container runtimes, the commands that the gateway runs, and the web interface.
pub mod Base
pub mod Domain
pub mod Control
pub mod Dns
pub mod Recovery
pub mod State
pub mod Enforcement
pub mod Profiles
pub mod HostAgent
pub mod HostPolicy
pub mod Isolation
pub mod Natpmp
pub mod Tests
pub mod Wireguard
