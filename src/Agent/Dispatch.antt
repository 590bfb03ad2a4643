-- ===== src/Agent/Dispatch.antt =====
-- desktop/src-tauri/src/agent.rs: `dispatch_control_message`, which the QUIC and KCP carriers call, with
-- the first steps of the tasks that it starts, and the delays of `run_reconnecting`. The time, what the
-- local target does and the texts of errors are arguments; `closed` is that of a send on
-- a closed channel.
use tunnelbridge.Prelude.{
  ℕ, ◌+◌, ◌*◌, ◌^◌, min, Option, none, some, ◌++◌, ◌==◌, nat_eq, if◌then◌else◌,
}
use tunnelbridge.Prelude.Text.{Text, codes}
use tunnelbridge.Protocol.{
  DateTime, ActiveTransport, OpenRequest, AgentControlMessage, welcome, config_sync,
  open_connection, open_udp_session, error, protocol_version,
}
use tunnelbridge.Server.Bridge.{Outcome, running, finished, broken}
use tunnelbridge.Agent.Runtime.{RuntimeState, Session, set_transport, log, log_with_location}
use tunnelbridge.Agent.Local.{open_local}

-- `run_reconnecting`: the exponent of the next delay, and the delay in milliseconds.
unfoldable pub next_attempt : ℕ → ℕ
next_attempt attempt = min (attempt + 1) 8

unfoldable pub delay : ℕ → ℕ → ℕ
delay attempt jitter = min (2 ^ attempt) 60 * 1000 + jitter

unfoldable pub transport_or_quic : Option ActiveTransport → ActiveTransport
transport_or_quic none = ActiveTransport.quic
transport_or_quic (some transport) = transport

unfoldable pub with_runtime : (RuntimeState → RuntimeState) → Session → Session
with_runtime f s = record s { runtime = f s.runtime }

-- What the local target does: it takes the connection, or the refusal that is sent and the text of the
-- error that is logged.
pub data Target : Type 0 where
  takes : Target
  fails : (refusal report : Text) → Target

pub refusal_of : Target → Option Text
refusal_of takes = none
refusal_of (fails refusal report) = some refusal

-- The error that the task ends with: that of a send on a closed channel, or that of the target.
pub report_of : Text → Session → Target → Text
report_of closed s takes = closed
report_of closed s (fails refusal report) = if s.is_open then report else closed

module _ (closed : Text) where
  -- The task of a request, up to the bridge: `running` says that it begins.
  unfoldable pub open_request :
      Session → DateTime → Text → Text → OpenRequest → Target → Outcome × Session
  unfolding log log_with_location with_runtime open_local refusal_of report_of
  open_request s now what failure request target =
      let told =
        with_runtime
          (λ r.
            log_with_location r now (codes "info")
              (request.tunnel.name ++ (codes " 收到来自 " ++ (request.peer_addr ++ what)))
              request.peer_location)
          s in
      let (o, s') = open_local told request.id request.ticket (refusal_of target) in
      elim o [
        | running ↦ (running, s')
        | finished ↦ (finished, s')
        | broken ↦ (
          broken,
          with_runtime (λ r. log r now (codes "error") (failure ++ report_of closed s target)) s',
        )
      ]

  unfoldable pub open_multiplexed_stream :
      Session → DateTime → OpenRequest → Target → Outcome × Session
  unfolding open_request
  open_multiplexed_stream s now = open_request s now (codes " 的连接") (codes "转发连接失败：")

  unfoldable pub open_udp : Session → DateTime → OpenRequest → Target → Outcome × Session
  unfolding open_request
  open_udp s now = open_request s now (codes " 的 UDP 会话") (codes "UDP 转发失败：")

  -- `none` is the failure that ends the carrier.
  unfoldable pub dispatch_control_message :
      Session → DateTime → Target → AgentControlMessage → Option Session
  unfolding with_runtime set_transport log open_multiplexed_stream open_udp transport_or_quic
  dispatch_control_message s now target (welcome version server_time capabilities transport) =
      if version == protocol_version
      then some (with_runtime (λ r. set_transport r (transport_or_quic transport) none) s)
      else none
  dispatch_control_message s now target (config_sync tunnels) =
      some (with_runtime (λ r. record r { tunnels = tunnels }) s)
  dispatch_control_message s now target (open_connection request) =
      some (open_multiplexed_stream s now request target).1
  dispatch_control_message s now target (open_udp_session request) =
      some (open_udp s now request target).1
  dispatch_control_message s now target (error code message) = some (
      with_runtime
        (λ r. log r now (codes "error") (codes "服务器错误 " ++ (code ++ (codes "：" ++ message)))) s)
  dispatch_control_message s now target _ = some s
