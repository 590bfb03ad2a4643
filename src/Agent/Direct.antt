-- ===== src/Agent/Direct.antt =====
-- desktop/src-tauri/src/agent.rs `run_quic_carrier` and desktop/src-tauri/src/kcp.rs `run`: what they
-- send first, and their loops. The libraries that decode and hash the certificate are parameters, and so is
-- what serde makes of a payload; the socket's results are arguments.
use tunnelbridge.Prelude.{ℕ, Option, none, some, List, [], ◌∷◌, ◌==◌, nat_eq, if◌then◌else◌, Bool}
use tunnelbridge.Prelude.Text.{Text, text_eq, codes, trim}
use tunnelbridge.Prelude.Result.{Result, ok, ◌>>=◌, ◌>>◌, ensure, ok_or}
use tunnelbridge.Protocol.{
  DateTime, ActiveTransport, TunnelKind, CarrierCapabilities, default_capabilities,
  AgentControlMessage, hello, DirectCarrierAuth, protocol_version,
}
use tunnelbridge.Protocol.Frame.{UuidBytes}
use tunnelbridge.Record.{Record, record_control, record_binary}
use tunnelbridge.Server.Bridge.{Outcome, running, finished, broken}
use tunnelbridge.Server.Carrier.Direct.{Sent, on_stream, send_binary}
use tunnelbridge.Agent.Runtime.{
  Session, AgentConfig, Outbound, control, binary, close, online, set_status, set_transport, log,
}
use tunnelbridge.Agent.Local.{send_outbound, route_local_frame}
use tunnelbridge.Agent.Dispatch.{Target, with_runtime, dispatch_control_message}
use tunnelbridge.Agent.Wss.{heartbeat}

-- The two direct carriers of the agent.
pub data Direct : Type 0 where
  over_quic over_kcp : Direct

unfoldable pub transport_of : Direct → ActiveTransport
transport_of over_quic = ActiveTransport.quic
transport_of over_kcp = ActiveTransport.kcp

pub data CertificateError : Type 0 where
  not_base64 wrong_fingerprint : CertificateError

-- The pinned certificate, once it has the fingerprint that was stored when the agent was enrolled.
unfoldable pub pinned_certificate :
    (Text → Option (List ℕ)) → (List ℕ → Text) → Text → Text → Result CertificateError (List ℕ)
pinned_certificate decode fingerprint stored expected = do
  der ← ok_or (decode (trim stored)) not_base64
  ensure (fingerprint der == expected) wrong_fingerprint
  ok der

-- The port that is dialled.
unfoldable pub quic_port_of : AgentConfig → ℕ
quic_port_of config = if config.quic_port == 0 then 443 else config.quic_port

unfoldable pub kcp_port_of : AgentConfig → ℕ
kcp_port_of config = if config.kcp_port == 0 then 4000 else config.kcp_port

pub dialled_port : Direct → AgentConfig → ℕ
unfolding quic_port_of kcp_port_of
dialled_port over_quic config = quic_port_of config
dialled_port over_kcp config = kcp_port_of config

quic_capabilities : CarrierCapabilities
quic_capabilities = record default_capabilities {
  transports = ActiveTransport.quic ∷ ActiveTransport.wss ∷ [];
  tunnel_kinds = TunnelKind.tcp ∷ TunnelKind.udp ∷ TunnelKind.web ∷ [];
}

kcp_capabilities : CarrierCapabilities
kcp_capabilities = record default_capabilities {
  transports = ActiveTransport.kcp ∷ [];
  tunnel_kinds = TunnelKind.tcp ∷ TunnelKind.udp ∷ TunnelKind.web ∷ [];
}

direct_capabilities : Direct → CarrierCapabilities
unfolding quic_capabilities kcp_capabilities
direct_capabilities over_quic = quic_capabilities
direct_capabilities over_kcp = kcp_capabilities

-- The first message.
unfoldable pub direct_auth : Direct → AgentConfig → Text → DirectCarrierAuth
unfolding direct_capabilities
direct_auth direct config token = record {
  token = token;
  hello_message =
      hello protocol_version config.installation_id config.device_name (direct_capabilities direct)
        0;
}

-- What the writer task of a carrier does with a message: what it gives to the transport, or `none` where
-- it ends. `takes_datagrams` says whether `send_datagram` succeeds.
pub write_quic : (AgentControlMessage → List ℕ) → Bool → Outbound → Option Sent
unfolding send_binary
write_quic message_bytes takes_datagrams (control m) =
    some (on_stream (record { kind = record_control; payload = message_bytes m }))
write_quic message_bytes takes_datagrams (binary frame) = some (send_binary takes_datagrams frame)
write_quic message_bytes takes_datagrams close = none

pub write_kcp : (AgentControlMessage → List ℕ) → Outbound → Option Sent
write_kcp message_bytes (control m) =
    some (on_stream (record { kind = record_control; payload = message_bytes m }))
write_kcp message_bytes (binary frame) =
    some (on_stream (record { kind = record_binary; payload = frame }))
write_kcp message_bytes close = none

quic_connected : Text × Text
quic_connected = (codes "QUIC 承载已连接", codes "已通过 QUIC 连接中继服务器")

kcp_connected : Text × Text
kcp_connected = (codes "KCP 承载已连接", codes "已通过 KCP/TLS 连接中继服务器")

connected : Direct → Text × Text
unfolding quic_connected kcp_connected
connected over_quic = quic_connected
connected over_kcp = kcp_connected

-- The status once the first message is written.
unfoldable pub start_direct : Direct → Session → DateTime → Session
unfolding with_runtime set_status set_transport log connected transport_of
start_direct direct s now =
    with_runtime
      (λ r.
        log (set_transport (set_status r online (connected direct).0) (transport_of direct) none)
          now (codes "info") (connected direct).1)
      s

-- What one turn of the loop takes; datagrams come over QUIC only.
pub data DirectEvent : Type 0 where
  cancelled heartbeat_due record_failed datagram_failed : DirectEvent
  record_read : Record → DirectEvent
  datagram_read : List ℕ → DirectEvent

pub data KcpEvent : Type 0 where
  kcp_cancelled kcp_heartbeat_due kcp_record_failed : KcpEvent
  kcp_record_read : Record → KcpEvent

sent_on : Option Session → Session → Outcome × Session
sent_on none s = (broken, s)
sent_on (some s') s = (running, s')

module _ (closed : Text) (uuid : UuidBytes)
    (parse_message : List ℕ → Option AgentControlMessage) where
  unfoldable pub take_record : Session → DateTime → Target → Record → Outcome × Session
  unfolding sent_on route_local_frame
  take_record s now target r =
      if r.kind == record_binary
      then (running, route_local_frame uuid s r.payload)
      else elim (parse_message r.payload) [
        | none ↦ (broken, s)
        | some m ↦ sent_on (dispatch_control_message closed s now target m) s
      ]

  -- `finished` leaves the loop, `broken` is its failure.
  pub direct_turn : Session → DateTime → Target → DirectEvent → Outcome × Session
  unfolding take_record route_local_frame
  direct_turn s now target cancelled = (finished, s)
  direct_turn s now target heartbeat_due = heartbeat s now
  direct_turn s now target record_failed = (broken, s)
  direct_turn s now target datagram_failed = (broken, s)
  direct_turn s now target (record_read r) = take_record s now target r
  direct_turn s now target (datagram_read bytes) = (running, route_local_frame uuid s bytes)

  pub kcp_turn : Session → DateTime → Target → KcpEvent → Outcome × Session
  unfolding take_record
  kcp_turn s now target kcp_cancelled = (finished, s)
  kcp_turn s now target kcp_heartbeat_due = heartbeat s now
  kcp_turn s now target kcp_record_failed = (broken, s)
  kcp_turn s now target (kcp_record_read r) = take_record s now target r

  -- The loop over the records that the server has written.
  unfoldable pub take_records : Session → DateTime → Target → List Record → Outcome × Session
  unfolding take_record
  take_records s now target [] = (running, s)
  take_records s now target (r ∷ rs) =
      let (o, s') = take_record s now target r in
      elim o [
        | running ↦ take_records s' now target rs
        | finished ↦ (finished, s')
        | broken ↦ (broken, s')
      ]

-- After the loop, `let _ = outbound_tx.send(Outbound::Close)`.
pub end_direct : Session → Session
unfolding send_outbound
end_direct s = elim (send_outbound s close) [ none ↦ s | some s' ↦ s' ]
