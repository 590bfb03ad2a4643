-- ===== src/Agent/Reconnect.antt =====
-- desktop/src-tauri/src/agent.rs: `run_reconnecting` and `run_carrier`. What a carrier does to the runtime
-- until it ends is an argument, and so are the time, the token of the keychain and the draws.
pub mod Delays
use tunnelbridge.Prelude.{ℕ, Bool, true, false, Option, none, some, List, [], ◌∷◌, ◌++◌}
use tunnelbridge.Prelude.Text.{Text, codes}
use tunnelbridge.Prelude.Result.{Result, ok, err}
use tunnelbridge.Protocol.{DateTime, ActiveTransport, TransportMode}
use tunnelbridge.Agent.Runtime.{
  RuntimeState, AgentConfig, unconfigured, connecting, offline, error, set_status, set_transport,
  log,
}
use tunnelbridge.Agent.Dispatch.{next_attempt, delay}

-- How a carrier ends: with `Ok(())`, or with the text of its error.
pub data End : Type 0 where
  closed : End
  failed : Text → End

abbrev pub Carry : Type 0
Carry = RuntimeState → End × RuntimeState

pub record Carriers : Type 0 where
  pub quic : Carry
  pub kcp : Carry
  pub wss : Carry

-- The fallback of the mode `Auto`. `cancelled` is `cancellation.is_cancelled()` after QUIC.
unfoldable pub fall_back : Carry → Bool → DateTime → End × RuntimeState → End × RuntimeState
unfolding log set_transport
fall_back wss true now (closed, s) = (closed, s)
fall_back wss false now (closed, s) = wss s
fall_back wss cancelled now (failed e, s) =
    let reason = codes "QUIC 不可用：" ++ e in
    wss (
      set_transport (log s now (codes "warn") (reason ++ codes "，已回退 WSS")) ActiveTransport.wss
        (some reason))

unfoldable pub run_carrier : Carriers → Bool → DateTime → TransportMode → Carry
unfolding fall_back
run_carrier carriers cancelled now TransportMode.quic s = carriers.quic s
run_carrier carriers cancelled now TransportMode.kcp s = carriers.kcp s
run_carrier carriers cancelled now TransportMode.wss s = carriers.wss s
run_carrier carriers cancelled now TransportMode.auto s =
    fall_back carriers.wss cancelled now (carriers.quic s)

-- A turn of the loop: whether the task is cancelled before it, after the carrier has ended, and while it
-- sleeps; the token or the text of its error; the carriers; and the draw.
pub record Turn : Type 0 where
  pub now : DateTime
  pub cancelled_before : Bool
  pub token : Result Text Text
  pub carriers : Carriers
  pub cancelled_after_quic : Bool
  pub cancelled_after : Bool
  pub jitter : ℕ
  pub cancelled_asleep : Bool

-- The log of an end, or `none` where the task returns.
unfoldable pub log_end : RuntimeState → DateTime → Bool → End → Option RuntimeState
unfolding log
log_end s now true closed = none
log_end s now false closed = some (log s now (codes "warn") (codes "控制通道已关闭"))
log_end s now cancelled (failed e) = some (log s now (codes "warn") (codes "连接失败：" ++ e))

-- Up to the sleep: `none` where the task returns.
unfoldable pub connect : Turn → RuntimeState → Bool × RuntimeState
unfolding set_status log run_carrier log_end
connect turn s = elim turn.cancelled_before [
  | true ↦ (false, s)
  | false ↦ elim s.config [
    | none ↦ (false, set_status s unconfigured (codes "尚未连接服务器"))
    | some config ↦ elim turn.token [
      | err e ↦ (false, log (set_status s error (codes "无法读取设备令牌")) turn.now (codes "error") e)
      | ok token ↦
          let (end, s') =
            run_carrier turn.carriers turn.cancelled_after_quic turn.now config.transport_mode
              (set_status s connecting (codes "正在建立加密控制通道")) in
          elim (log_end s' turn.now turn.cancelled_after end) [
            | none ↦ (false, s')
            | some s'' ↦ (true, set_status s'' offline (codes "连接中断，正在重试"))
          ]
    ]
  ]
]

-- The delays in milliseconds that the task begins to sleep, and the runtime at the end of the turns.
unfoldable pub reconnect : ℕ → RuntimeState → List Turn → List ℕ × RuntimeState
unfolding connect next_attempt delay
reconnect attempt s [] = ([], s)
reconnect attempt s (turn ∷ turns) =
    let (goes_on, s') = connect turn s in
    let (delays, s'') = reconnect (next_attempt attempt) s' turns in
    let wait = delay (next_attempt attempt) turn.jitter in
    elim goes_on [
      | false ↦ ([], s')
      | true ↦ elim turn.cancelled_asleep [ true ↦ (wait ∷ [], s') | false ↦ (wait ∷ delays, s'') ]
    ]

-- `run_reconnecting`.
unfoldable pub run_reconnecting : RuntimeState → List Turn → List ℕ × RuntimeState
unfolding reconnect
run_reconnecting = reconnect 0
