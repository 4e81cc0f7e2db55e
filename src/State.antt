-- ===== src/State.antt =====
-- src/state.rs: what is known of a client of the gateway. An IPv4 address is a number below 2 ^ 32.
use egressy.Base.{ℕ, String, Bool, Option, List}

pub data UsageIdentitySource : Type 0 where
  explicit_label compose_service container_lifetime : UsageIdentitySource

pub record ClientTrafficSample : Type 0 where
  pub sampled_at_unix_ms : ℕ
  pub downloaded_bytes : ℕ
  pub uploaded_bytes : ℕ

pub record ClientTrafficState : Type 0 where
  pub download_packets : ℕ
  pub downloaded_bytes : ℕ
  pub upload_packets : ℕ
  pub uploaded_bytes : ℕ
  pub sampled_at_unix_ms : Option ℕ
  pub history : List ClientTrafficSample

pub data RouteIntentStatus : Type 0 where
  verified mismatch unknown : RouteIntentStatus

-- `egress_gateway_priority` and `gateway_priorities` are only carried: `Priorities` stands for both.
pub record RouteIntentState (Priorities : Type 0) : Type 0 where
  pub status : RouteIntentStatus
  pub ipv4_default_network : Option String
  pub ipv6_default_network : Option String
  pub priorities : Priorities
  pub reason_code : String
  pub safe_message : String

pub record ClientState (Priorities : Type 0) : Type 0 where
  pub container_id : String
  pub usage_id : String
  pub usage_id_source : UsageIdentitySource
  pub name : String
  pub ipv4_address : ℕ
  pub port_forward_target : Bool
  pub target_port : Option ℕ
  pub compliant : Bool
  pub compliance_message : String
  pub running : Bool
  pub ipv6_address : Option String
  pub networks : List String
  pub port_forward_label_valid : Bool
  pub route_intent : RouteIntentState Priorities
  pub traffic : ClientTrafficState
