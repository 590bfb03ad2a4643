-- ===== src/Server/Bridge.antt =====
-- server/src/gateway.rs: `bridge`, the two loops that carry bytes between a public connection and its
-- stream on the agent's carrier. What the awaited calls give is an argument: the results of the reads,
-- in order, and what the inbox yields. The loops run beside other tasks; one turn of a loop is one
-- function on the state. The carrier's queue holds 256 frames in the source, and its sender waits.

use tunnelbridge.Prelude.{
  ℕ, ◌+◌, Bool, true, Option, none, some, List, [], ◌∷◌, ◌++◌, ◌==◌, nat_eq, if◌then◌else◌, length,
}
use tunnelbridge.Prelude.Map.{get, insert}
use tunnelbridge.Protocol.{
  Uuid, ActiveConnection, carrier_frame_data, carrier_frame_fin, carrier_frame_reset,
}
use tunnelbridge.Protocol.Frame.{UuidBytes, encode_carrier_frame}
use tunnelbridge.Server.State.{AppState, InboundCarrierFrame, add_up, add_down}

-- A `read`: the bytes that it put in the buffer, none of them at the end of the stream, or its
-- failure, by an error or because the connection was idle.
pub data Read : Type 0 where
  bytes : List ℕ → Read
  read_failed : Read

-- A wait for the inbox: a frame, the end of the inbox, or the idle timeout.
pub data Received : Type 0 where
  inbox_frame : InboundCarrierFrame → Received
  inbox_closed idle : Received

-- Whether a loop goes on, has ended, or has failed.
pub data Outcome : Type 0 where
  running finished broken : Outcome

-- The writing half of a connection: what it was given, and whether it still takes anything.
pub record Sink : Type 0 where
  pub written : List ℕ
  pub is_shut : Bool
  pub is_open : Bool

-- `carrier.send(frame)`, which fails once the receiver is gone.
unfoldable pub send_binary : AppState → Uuid → List ℕ → Option AppState
send_binary s session_id frame = elim (get s.carriers session_id) [
  | none ↦ none
  | some carrier ↦
      if carrier.is_open
      then some (record s {
        carriers =
            insert s.carriers session_id (record carrier { binary = carrier.binary ++ frame ∷ [] });
      })
      else none
]

-- `if let Some(mut active) = state.active.get_mut(&id) { … }`
unfoldable pub edit_active : (ActiveConnection → ActiveConnection) → AppState → Uuid → AppState
edit_active f s id = elim (get s.active id) [
  | none ↦ s
  | some c ↦ record s { active = insert s.active id (f c) }
]

unfoldable pub count_down : ℕ → AppState → Uuid → AppState
unfolding edit_active add_down
count_down n s id = edit_active (λ c. record c { bytes_down = c.bytes_down + n }) (add_down n s) id

unfoldable pub count_up : ℕ → AppState → Uuid → AppState
unfolding edit_active add_up
count_up n s id = edit_active (λ c. record c { bytes_up = c.bytes_up + n }) (add_up n s) id

module _ (uuid : UuidBytes) (session_id id : Uuid) where
  -- One turn of `upstream`.
  unfoldable pub up_turn : AppState → Read → Outcome × AppState
  unfolding send_binary count_down
  up_turn s read_failed = (broken, s)
  up_turn s (bytes []) =
      elim (send_binary s session_id (encode_carrier_frame uuid carrier_frame_fin id [])) [
        | none ↦ (broken, s)
        | some s' ↦ (finished, s')
      ]
  up_turn s (bytes (b ∷ bs)) =
      elim (send_binary s session_id (encode_carrier_frame uuid carrier_frame_data id (b ∷ bs))) [
        | none ↦ (broken, s)
        | some s' ↦ (running, count_down (length (b ∷ bs)) s' id)
      ]

  -- The loop, on the reads that have come.
  unfoldable pub upstream : AppState → List Read → Outcome × AppState
  unfolding up_turn
  upstream s [] = (running, s)
  upstream s (r ∷ rs) =
      let (o, s') = up_turn s r in
      elim o [ running ↦ upstream s' rs | finished ↦ (finished, s') | broken ↦ (broken, s') ]

module _ (id : Uuid) where
  -- One turn of `downstream`.
  unfoldable pub down_turn : AppState → Sink → Received → Outcome × AppState × Sink
  unfolding count_up
  down_turn s sink inbox_closed = (finished, s, sink)
  down_turn s sink idle = (broken, s, sink)
  down_turn s sink (inbox_frame f) =
      if f.kind == carrier_frame_data
      then if sink.is_open
        then (
          running,
          count_up (length f.payload) s id,
          record sink { written = sink.written ++ f.payload },
        )
        else (broken, s, sink)
      else if f.kind == carrier_frame_fin
      then if sink.is_open then (finished, s, record sink { is_shut = true }) else (broken, s, sink)
      else if f.kind == carrier_frame_reset
      then (broken, s, sink)
      else (running, s, sink)

  -- The loop, on what the inbox has given.
  unfoldable pub downstream : AppState → Sink → List Received → Outcome × AppState × Sink
  unfolding down_turn
  downstream s sink [] = (running, s, sink)
  downstream s sink (r ∷ rs) =
      let (o, s', sink') = down_turn s sink r in
      elim o [
        | running ↦ downstream s' sink' rs
        | finished ↦ (finished, s', sink')
        | broken ↦ (broken, s', sink')
      ]

-- `up?; down?`, when both loops have ended.
pub bridge_result : Outcome → Outcome → Outcome
bridge_result broken down = broken
bridge_result up down = down
