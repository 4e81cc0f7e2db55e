-- ===== src/Domain/Status.antt =====
-- The fields of `CanonicalSnapshot` (src/domain.rs) that are only carried. A floating-point number
-- is any type.
use egressy.Base.{ℕ, String, Bool, true, false, Option, Map}
use egressy.State.{ClientState}

pub data PortForwardPhase : Type 0 where
  disabled waiting_for_target requested leased installed verified target_ambiguous :
      PortForwardPhase
  lease_lost install_failed verification_failed unavailable : PortForwardPhase

pub record PortForwardStatus : Type 0 where
  pub phase : PortForwardPhase
  pub requested_target : Option String
  pub internal_port : Option ℕ
  pub external_port : Option ℕ
  pub tcp_udp_agree : Option Bool
  pub lease_acquired_at_unix_ms : Option ℕ
  pub lease_expires_at_unix_ms : Option ℕ
  pub dnat_installed : Bool
  pub externally_verified : Option Bool
  pub change_sequence : ℕ
  pub changed_at_unix_ms : Option ℕ

pub data ExternalProbeStatus : Type 0 where
  unknown healthy degraded unavailable : ExternalProbeStatus

pub record ExternalProbeResult : Type 0 where
  pub status : ExternalProbeStatus
  pub observed_at_unix_ms : Option ℕ
  pub source_public_non_tailscale : Option Bool
  pub source_matches_claimed_ip : Option Bool
  pub tcp_port_reachable : Option Bool
  pub forwarded_port : Option ℕ
  pub lease_acquired_at_unix_ms : Option ℕ
  pub request_started_at_unix_ms : Option ℕ
  pub reason_code : Option String
  pub safe_message : Option String

pub data VpnServerLatencyStatus : Type 0 where
  measured timeout unsupported resolution_failed unavailable : VpnServerLatencyStatus

pub record VpnServerLatency (Float : Type 0) : Type 0 where
  pub status : VpnServerLatencyStatus
  pub sampled_at_unix_ms : Option ℕ
  pub latest_rtt_ms : Option Float
  pub recent_min_rtt_ms : Option Float
  pub recent_average_rtt_ms : Option Float
  pub recent_max_rtt_ms : Option Float
  pub loss_ratio : Option Float
  pub sample_count : ℕ

pub record VpnServerStatus (Float : Type 0) : Type 0 where
  pub configured_endpoint_host : Option String
  pub configured_endpoint_port : Option ℕ
  pub configured_address_family : Option String
  pub allowed_ips_posture : String
  pub runtime_endpoint_address : Option String
  pub runtime_endpoint_port : Option ℕ
  pub provider_inferred : Option String
  pub region_inferred : Option String
  pub inference_source : Option String
  pub inference_confidence : Option String
  pub active : Bool
  pub latest_handshake_unix : Option ℕ
  pub handshake_age_seconds : Option ℕ
  pub observed_at_unix_ms : Option ℕ
  pub latency : VpnServerLatency Float

pub record TopologyStatus : Type 0 where
  pub network : String
  pub subnet : String
  pub gateway_address : String
  pub host_bridge : String
  pub policy_table : ℕ
  pub client_ipv6_supported : Bool
  pub default_route_verifiable : Bool
  pub declared_route_intent_observable : Bool
  pub client_isolation : String

-- `TopologyStatus::default`.
abbrev pub default_topology : TopologyStatus
default_topology = record {
  network = "";
  subnet = "";
  gateway_address = "";
  host_bridge = "";
  policy_table = 0;
  client_ipv6_supported = false;
  default_route_verifiable = false;
  declared_route_intent_observable = true;
  client_isolation = "shared_bridge_not_enforced";
}

-- What `CanonicalSnapshot` has beside the fields of its record in Domain/Aggregate. `Policies` are
-- the isolation and the host policy, the traffic and the status of the profiles.
pub record Carried (Float Priorities Policies : Type 0) : Type 0 where
  pub port_forward : PortForwardStatus
  pub port_forwards : Map String PortForwardStatus
  pub external_probe : ExternalProbeResult
  pub external_probes : Map String ExternalProbeResult
  pub vpn_server : VpnServerStatus Float
  pub topology : TopologyStatus
  pub clients : Map String (ClientState Priorities)
  pub last_client_path_success_at_unix_ms : Option ℕ
  pub policies : Policies
