-- ===== src/Agent/Wss.antt =====
-- desktop/src-tauri/src/agent.rs: `run_wss_carrier` from its first message on. What the socket gives and
-- what serde makes of a text are arguments, as in Agent/Dispatch.
use tunnelbridge.Prelude.{
  ℕ, ◌+◌, ◌-◌, Option, none, some, List, [], ◌∷◌, ◌++◌, ◌==◌, nat_eq, if◌then◌else◌,
}
use tunnelbridge.Prelude.Text.{Text, codes}
use tunnelbridge.Protocol.{
  DateTime, ActiveTransport, TunnelKind, OpenRequest, CarrierCapabilities, default_capabilities,
  AgentControlMessage, hello, welcome, ping, pong, config_sync, open_connection, open_udp_session,
  error, protocol_version,
}
use tunnelbridge.Protocol.Frame.{UuidBytes}
use tunnelbridge.Server.Bridge.{Outcome, running, finished, broken}
use tunnelbridge.Agent.Runtime.{
  RuntimeState, Session, AgentConfig, control, close, online, set_status, set_transport, log,
  log_with_location,
}
use tunnelbridge.Agent.Local.{send_outbound, open_local, route_local_frame}
use tunnelbridge.Agent.Dispatch.{Target, with_runtime, refusal_of, report_of, open_udp}

-- What `reader.next()` gives: a text that is a message or none, a binary message, a ping, the close
-- message or the end of the stream, an error, or another message.
pub data Incoming : Type 0 where
  text : Option AgentControlMessage → Incoming
  binary_message : List ℕ → Incoming
  ping_message : Incoming
  closed_stream : Incoming
  failed_stream : Incoming
  other_message : Incoming

wss_capabilities : CarrierCapabilities
wss_capabilities = record default_capabilities {
  transports = ActiveTransport.wss ∷ [];
  tunnel_kinds = TunnelKind.tcp ∷ TunnelKind.udp ∷ TunnelKind.web ∷ [];
}

sent_or_broken : Option Session → Session → Outcome × Session
sent_or_broken none s = (broken, s)
sent_or_broken (some s') s = (running, s')

-- The message `Hello`, and the status after it.
pub start_wss : Session → DateTime → AgentConfig → Outcome × Session
unfolding send_outbound with_runtime set_status log wss_capabilities
start_wss s now config =
    elim (send_outbound s (
      control
        (hello protocol_version config.installation_id config.device_name wss_capabilities 0))) [
          | none ↦ (broken, s)
          | some s' ↦ (
            running,
            with_runtime
                (λ r.
                  log (set_status r online (codes "控制通道已连接")) now (codes "info") (codes "已连接中继服务器"))
                s',
          )
        ]

-- The gauge of open connections; `◌-◌` stops at 0, as `saturating_sub` does.
set_connections : (ℕ → ℕ) → (ℕ → ℕ) → RuntimeState → RuntimeState
set_connections f g r = record r {
  metrics = record r.metrics {
    active_connections = f r.metrics.active_connections;
    failed_connections = g r.metrics.failed_connections;
  };
}

module _ (closed : Text) where
  -- The task of a connection up to its bridge. The connection is counted while the task runs.
  pub open_counted : Session → DateTime → OpenRequest → Target → Outcome × Session
  unfolding with_runtime log log_with_location set_connections open_local
  open_counted s now request target =
      let told =
        with_runtime
          (λ r.
            set_connections (λ n. n + 1) (λ n. n)
              (log_with_location r now (codes "info")
                (request.tunnel.name ++ (codes " 收到来自 " ++ (request.peer_addr ++ codes " 的连接")))
                request.peer_location))
          s in
      let (o, s') = open_local told request.id request.ticket (refusal_of target) in
      elim o [
        | running ↦ (running, s')
        | finished ↦ (finished, s')
        | broken ↦ (
          broken,
          with_runtime
              (λ r.
                log (set_connections (λ n. n - 1) (λ n. n + 1) r) now (codes "error")
                  (codes "转发连接失败：" ++ report_of closed s target))
              s',
        )
      ]

  -- The end of the task, when the bridge has ended with a result.
  pub close_counted : Session → DateTime → Outcome → Text → Session
  unfolding with_runtime log set_connections
  close_counted s now broken report =
      with_runtime
        (λ r.
          log (set_connections (λ n. n - 1) (λ n. n + 1) r) now (codes "error")
            (codes "转发连接失败：" ++ report))
        s
  close_counted s now result report = with_runtime (set_connections (λ n. n - 1) (λ n. n)) s

  handle_control : Session → DateTime → Target → AgentControlMessage → Outcome × Session
  unfolding with_runtime set_transport log open_counted open_udp
  handle_control s now target (welcome version server_time capabilities transport) =
      if version == protocol_version
      then (
        running,
        with_runtime
            (λ r. set_transport r (elim transport [ none ↦ ActiveTransport.wss | some t ↦ t ]) none)
            s,
      )
      else (broken, s)
  handle_control s now target (config_sync tunnels) =
      (running, with_runtime (λ r. record r { tunnels = tunnels }) s)
  handle_control s now target (open_connection request) =
      (running, (open_counted s now request target).1)
  handle_control s now target (open_udp_session request) =
      (running, (open_udp closed s now request target).1)
  handle_control s now target (error code message) = (
    running,
    with_runtime
        (λ r. log r now (codes "error") (codes "服务器错误 " ++ (code ++ (codes "：" ++ message)))) s,
  )
  handle_control s now target _ = (running, s)

  -- The arm `reader.next()` of the loop: `finished` is its return, `broken` its failure.
  pub handle_incoming : UuidBytes → Session → DateTime → Target → Incoming → Outcome × Session
  unfolding handle_control route_local_frame send_outbound sent_or_broken
  handle_incoming uuid s now target (text none) = (broken, s)
  handle_incoming uuid s now target (text (some message)) = handle_control s now target message
  handle_incoming uuid s now target (binary_message frame) =
      (running, route_local_frame uuid s frame)
  handle_incoming uuid s now target ping_message =
      sent_or_broken (send_outbound s (control (pong now))) s
  handle_incoming uuid s now target closed_stream = (finished, s)
  handle_incoming uuid s now target failed_stream = (broken, s)
  handle_incoming uuid s now target other_message = (running, s)

-- The arm `heartbeat.tick()`.
pub heartbeat : Session → DateTime → Outcome × Session
unfolding send_outbound sent_or_broken
heartbeat s now = sent_or_broken (send_outbound s (control (ping now))) s

-- The arms `quic_probe.tick()` and `cancellation.cancelled()`: the close message, if it can be sent.
close_or_same : Option Session → Session → Session
close_or_same none s = s
close_or_same (some s') s = s'

pub probe : Session → Outcome × Session
unfolding send_outbound close_or_same
probe s = (broken, close_or_same (send_outbound s close) s)

pub cancel : Session → Outcome × Session
unfolding send_outbound close_or_same
cancel s = (finished, close_or_same (send_outbound s close) s)
