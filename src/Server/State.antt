-- ===== src/Server/State.antt =====
-- server/src/state.rs. The channels that the source's handles lead to are part of the state: a
-- carrier's two outboxes stand under the identifier of its session, so that a clone of an `AgentPeer`
-- leads to the same outboxes, and a stream's inbox stands in `streams`. Instants are milliseconds.
-- What runs beside the server (SQLite, the sockets) is reached through `db` and the outboxes only.
use tunnelbridge.Prelude.{ℕ, ◌+◌, Bool, Option, List, length}
use tunnelbridge.Prelude.Text.{Text}
use tunnelbridge.Prelude.Map.{Map}
use tunnelbridge.Net.{IpAddr}
use tunnelbridge.Protocol.{
  Uuid, ActiveTransport, ActiveConnection, AgentControlMessage, GeoLocation, MetricsSnapshot,
}
use tunnelbridge.Server.Config.{Config}
use tunnelbridge.Server.Db.{Db}

pub record AdminSession : Type 0 where
  pub username : Text
  pub csrf_token : Text
  pub expires_at : ℕ

pub record LoginWindow : Type 0 where
  pub started_at : ℕ
  pub attempts : ℕ

pub record PendingConnection : Type 0 where
  pub agent_id : Uuid
  pub ticket_hash : Text
  pub expires_at : ℕ

pub record InboundCarrierFrame : Type 0 where
  pub kind : ℕ
  pub payload : List ℕ

pub record AgentPeer : Type 0 where
  pub session_id : Uuid
  pub transport : ActiveTransport

-- The channels behind `sender` and `binary_sender`, oldest first, and the token `cancellation`.
-- `is_open` says that the writer task still holds the receiving ends.
pub record Carrier : Type 0 where
  pub control : List AgentControlMessage
  pub binary : List (List ℕ)
  pub is_open : Bool
  pub cancelled : Bool

pub record Counters : Type 0 where
  pub bytes_up : ℕ
  pub bytes_down : ℕ
  pub rejected : ℕ
  pub failed : ℕ
  pub active_udp : ℕ
  pub http_requests : ℕ
  pub quic : ℕ
  pub kcp : ℕ
  pub wss : ℕ

-- What a oneshot channel `ack_tx` carries: `none` is an acceptance, `some` a refusal.
abbrev pub AckResult : Type 0
AckResult = Option Text

pub record CachedLocation : Type 0 where
  pub location : Option GeoLocation
  pub expires_at : ℕ

pub record AppState : Type 0 where
  pub config : Config
  pub db : Db
  pub sessions : Map Text AdminSession
  pub login_attempts : Map Text LoginWindow
  pub agents : Map Uuid AgentPeer
  pub pending : Map Uuid PendingConnection
  pub streams : Map Uuid (List InboundCarrierFrame)
  pub listeners : Map Uuid ℕ
  pub active : Map Uuid ActiveConnection
  pub counters : Counters
  pub geoip : Map IpAddr CachedLocation
  pub carriers : Map Uuid Carrier
  pub acks : Map Uuid AckResult
  pub cancelled_listeners : List ℕ

-- `AppState::metrics`.
pub metrics : AppState → MetricsSnapshot
metrics s = record {
  online_agents = length s.agents;
  active_connections = length s.active;
  bytes_up = s.counters.bytes_up;
  bytes_down = s.counters.bytes_down;
  rejected_connections = s.counters.rejected;
  failed_connections = s.counters.failed;
  carrier_sessions = length s.agents;
  active_udp_sessions = s.counters.active_udp;
  http_requests = s.counters.http_requests;
  quic_connections = s.counters.quic;
  kcp_connections = s.counters.kcp;
  wss_connections = s.counters.wss;
}

-- `Counters::add_up` and `Counters::add_down`; the 64-bit counters do not wrap in the model.
unfoldable pub add_up : ℕ → AppState → AppState
add_up n s = record s { counters = record s.counters { bytes_up = s.counters.bytes_up + n } }

unfoldable pub add_down : ℕ → AppState → AppState
add_down n s = record s { counters = record s.counters { bytes_down = s.counters.bytes_down + n } }

unfoldable pub count_rejected : AppState → AppState
count_rejected s = record s { counters = record s.counters { rejected = s.counters.rejected + 1 } }

unfoldable pub count_failed : AppState → AppState
count_failed s = record s { counters = record s.counters { failed = s.counters.failed + 1 } }

-- `session_expiry`.
unfoldable pub session_expiry : ℕ → ℕ → ℕ
session_expiry now ttl = now + ttl
