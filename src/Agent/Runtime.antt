-- ===== src/Agent/Runtime.antt =====
-- desktop/src-tauri/src/runtime.rs. A session's `streams` and the queue to its carrier, which
-- desktop/src-tauri/src/agent.rs makes for each carrier, stand beside the runtime's state. The tray
-- icon and the data directory are left out.
use tunnelbridge.Prelude.{ℕ, Bool, Option, none, some, List, [], ◌∷◌, take}
use tunnelbridge.Prelude.Text.{Text, codes}
use tunnelbridge.Prelude.Map.{Map, is_some}
use tunnelbridge.Protocol.{
  Uuid, DateTime, Tunnel, GeoLocation, ActiveTransport, TransportMode, MetricsSnapshot,
  AgentControlMessage,
}
use tunnelbridge.Server.State.{InboundCarrierFrame}
use mathlib.Core.Option

pub data AgentStatus : Type 0 where
  unconfigured connecting online offline error : AgentStatus

pub record EventEntry : Type 0 where
  pub at : DateTime
  pub level : Text
  pub message : Text
  pub peer_location : Option GeoLocation

-- `AgentConfig` of desktop/src-tauri/src/config.rs.
pub record AgentConfig : Type 0 where
  pub server_url : Text
  pub device_name : Text
  pub installation_id : Uuid
  pub transport_mode : TransportMode
  pub quic_port : ℕ
  pub kcp_port : ℕ

pub record RuntimeState : Type 0 where
  pub config : Option AgentConfig
  pub status : AgentStatus × Text
  pub tunnels : List Tunnel
  pub metrics : MetricsSnapshot
  pub events : List EventEntry
  pub transport : Option ActiveTransport × Option Text

pub record AppSnapshot : Type 0 where
  pub configured : Bool
  pub server_url : Option Text
  pub status : AgentStatus
  pub status_message : Text
  pub tunnels : List Tunnel
  pub metrics : MetricsSnapshot
  pub events : List EventEntry
  pub active_transport : Option ActiveTransport
  pub transport_fallback_reason : Option Text
  pub transport_mode : Option TransportMode

-- `MetricsSnapshot::default()`.
abbrev pub no_metrics : MetricsSnapshot
no_metrics = record {
  online_agents = 0;
  active_connections = 0;
  bytes_up = 0;
  bytes_down = 0;
  rejected_connections = 0;
  failed_connections = 0;
  carrier_sessions = 0;
  active_udp_sessions = 0;
  http_requests = 0;
  quic_connections = 0;
  kcp_connections = 0;
  wss_connections = 0;
}

-- `RuntimeState::new`.
pub new : RuntimeState
new = record {
  config = none;
  status = (unconfigured, codes "尚未连接服务器");
  tunnels = [];
  metrics = no_metrics;
  events = [];
  transport = (none, none);
}

unfoldable pub set_status : RuntimeState → AgentStatus → Text → RuntimeState
set_status s status message = record s { status = (status, message) }

unfoldable pub set_transport : RuntimeState → ActiveTransport → Option Text → RuntimeState
set_transport s transport reason = record s { transport = (some transport, reason) }

-- The newest entry stands first, and 200 entries are kept.
unfoldable pub log_with_location :
    RuntimeState → DateTime → Text → Text → Option GeoLocation → RuntimeState
log_with_location s at level message peer_location = record s {
  events = take 200 (
      record { at = at; level = level; message = message; peer_location = peer_location }
      ∷ s.events);
}

unfoldable pub log : RuntimeState → DateTime → Text → Text → RuntimeState
unfolding log_with_location
log s at level message = log_with_location s at level message none

pub snapshot : RuntimeState → AppSnapshot
snapshot s = record {
  configured = is_some s.config;
  server_url = Option.map (λ c. c.server_url) s.config;
  status = s.status.0;
  status_message = s.status.1;
  tunnels = s.tunnels;
  metrics = s.metrics;
  events = s.events;
  active_transport = s.transport.0;
  transport_fallback_reason = s.transport.1;
  transport_mode = Option.map (λ c. c.transport_mode) s.config;
}

-- `Outbound`, what an agent gives to the writer of its carrier.
pub data Outbound : Type 0 where
  control : AgentControlMessage → Outbound
  binary : List ℕ → Outbound
  close : Outbound

-- A carrier session of the agent: the state that it shares, its streams with their inboxes, and the
-- queue to its writer, which takes messages while `is_open` holds.
pub record Session : Type 0 where
  pub runtime : RuntimeState
  pub streams : Map Uuid (List InboundCarrierFrame)
  pub outbound : List Outbound
  pub is_open : Bool
