-- ===== src/Protocol/Enums.antt =====
-- The enums and the constants of crates/protocol/src/lib.rs.
use tunnelbridge.Prelude.{ℕ, ◌≡◌, ◌↔◌, Bool, true, false, List, [], ◌∷◌, arith, Eq}

abbrev pub protocol_version : ℕ
protocol_version = 2

abbrev pub data_frame_bytes : ℕ
data_frame_bytes = 0

abbrev pub data_frame_eof : ℕ
data_frame_eof = 1

abbrev pub carrier_frame_data : ℕ
carrier_frame_data = 2

abbrev pub carrier_frame_fin : ℕ
carrier_frame_fin = 3

abbrev pub carrier_frame_reset : ℕ
carrier_frame_reset = 4

abbrev pub carrier_frame_datagram : ℕ
carrier_frame_datagram = 5

abbrev pub max_udp_datagram : ℕ
max_udp_datagram = 65507

pub data TunnelKind : Type 0 where
  tcp udp web : TunnelKind

abbrev pub kind_beq : TunnelKind → TunnelKind → Bool
kind_beq TunnelKind.tcp TunnelKind.tcp = true
kind_beq TunnelKind.udp TunnelKind.udp = true
kind_beq TunnelKind.web TunnelKind.web = true
kind_beq _ _ = false

pub kind_beq_iff : (a b : TunnelKind) → (kind_beq a b ≡ true) ↔ (a ≡ b)
kind_beq_iff a b = ground arith

instance abbrev pub kind_eq : Eq TunnelKind
kind_eq = record { beq = kind_beq; beq_iff = kind_beq_iff }

pub data LocalScheme : Type 0 where
  tcp udp http https : LocalScheme

pub data TransportMode : Type 0 where
  auto quic kcp wss : TransportMode

pub data ActiveTransport : Type 0 where
  quic kcp wss : ActiveTransport

pub data AccessMode : Type 0 where
  allowlist public : AccessMode

pub data TunnelStatus : Type 0 where
  stopped starting online agent_offline error : TunnelStatus

-- `CarrierCapabilities`; `u32` fields are below 2^32.
pub record CarrierCapabilities : Type 0 where
  pub transports : List ActiveTransport
  pub tunnel_kinds : List TunnelKind
  pub max_streams : ℕ
  pub max_datagram_size : ℕ

-- `CarrierCapabilities::default`.
abbrev pub default_capabilities : CarrierCapabilities
default_capabilities = record {
  transports = ActiveTransport.wss ∷ [];
  tunnel_kinds = TunnelKind.tcp ∷ [];
  max_streams = 256;
  max_datagram_size = max_udp_datagram;
}
