-- ===== src/Protocol/Types.antt =====
-- The structs and the messages of crates/protocol/src/lib.rs. A `Uuid` is its 128-bit number, a
-- `DateTime<Utc>` a number of milliseconds since the epoch, and `u16`, `u32` and `u64` numbers.
use tunnelbridge.Prelude.{ℕ, Bool, List, Option}
use tunnelbridge.Prelude.Text.{Text}
use tunnelbridge.Net.{IpNet}
use tunnelbridge.Protocol.Enums.{
  TunnelKind, LocalScheme, AccessMode, TunnelStatus, ActiveTransport, CarrierCapabilities,
}

abbrev pub Uuid : Type 0
Uuid = ℕ

abbrev pub DateTime : Type 0
DateTime = ℕ

pub record Tunnel : Type 0 where
  pub id : Uuid
  pub agent_id : Uuid
  pub name : Text
  pub local_host : Text
  pub local_port : ℕ
  pub kind : TunnelKind
  pub local_scheme : LocalScheme
  pub remote_port : Option ℕ
  pub hostname : Option Text
  pub access_mode : AccessMode
  pub allowed_cidrs : List IpNet
  pub enabled : Bool
  pub status : TunnelStatus
  pub created_at : DateTime
  pub updated_at : DateTime

pub record GeoLocation : Type 0 where
  pub country_code : Text
  pub country_name : Text

pub record CreateTunnelRequest : Type 0 where
  pub name : Text
  pub local_host : Text
  pub local_port : ℕ
  pub kind : TunnelKind
  pub local_scheme : LocalScheme
  pub remote_port : Option ℕ
  pub hostname : Option Text
  pub access_mode : AccessMode
  pub allowed_cidrs : List IpNet
  pub enabled : Bool
  pub allow_lan_target : Bool

pub record UpdateTunnelRequest : Type 0 where
  pub name : Option Text
  pub local_host : Option Text
  pub local_port : Option ℕ
  pub kind : Option TunnelKind
  pub local_scheme : Option LocalScheme
  pub remote_port : Option ℕ
  pub hostname : Option Text
  pub access_mode : Option AccessMode
  pub allowed_cidrs : Option (List IpNet)
  pub enabled : Option Bool
  pub allow_lan_target : Bool

-- What `OpenConnection` and `OpenUdpSession` carry.
pub record OpenRequest : Type 0 where
  pub id : Uuid
  pub tunnel : Tunnel
  pub peer_addr : Text
  pub peer_location : Option GeoLocation
  pub ticket : Text
  pub expires_at : DateTime

pub record Ack : Type 0 where
  pub connection_id : Uuid
  pub accepted : Bool
  pub error : Option Text
  pub ticket : Option Text

pub data AgentControlMessage : Type 0 where
  hello :
      (version : ℕ) (agent_id : Uuid) (name : Text) (capabilities : CarrierCapabilities)
      (config_version : ℕ)
      → AgentControlMessage
  welcome :
      (version : ℕ) (server_time : DateTime) (capabilities : CarrierCapabilities)
      (transport : Option ActiveTransport)
      → AgentControlMessage
  ping pong : DateTime → AgentControlMessage
  config_sync : List Tunnel → AgentControlMessage
  open_connection open_udp_session : OpenRequest → AgentControlMessage
  close_udp_session : Uuid → Text → AgentControlMessage
  connection_ack : Ack → AgentControlMessage
  traffic : Uuid → ℕ → ℕ → AgentControlMessage
  error : Text → Text → AgentControlMessage

pub record DirectCarrierAuth : Type 0 where
  pub token : Text
  pub hello_message : AgentControlMessage

pub record ActiveConnection : Type 0 where
  pub id : Uuid
  pub tunnel_id : Uuid
  pub peer_addr : Text
  pub peer_location : Option GeoLocation
  pub opened_at : DateTime
  pub bytes_up : ℕ
  pub bytes_down : ℕ
  pub tunnel_kind : TunnelKind
  pub transport : Option ActiveTransport

pub record MetricsSnapshot : Type 0 where
  pub online_agents : ℕ
  pub active_connections : ℕ
  pub bytes_up : ℕ
  pub bytes_down : ℕ
  pub rejected_connections : ℕ
  pub failed_connections : ℕ
  pub carrier_sessions : ℕ
  pub active_udp_sessions : ℕ
  pub http_requests : ℕ
  pub quic_connections : ℕ
  pub kcp_connections : ℕ
  pub wss_connections : ℕ
