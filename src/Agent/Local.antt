-- ===== src/Agent/Local.antt =====
-- desktop/src-tauri/src/agent.rs: `route_local_frame`, `open_multiplexed_stream`, `bridge_local` and
-- `open_udp_session`. What the local target does is an argument: whether it takes the connection, what
-- the reads give, and what the inbox yields. The TLS handshake with an HTTPS target is left out, and a UDP
-- socket is taken to be bound.
use tunnelbridge.Prelude.{
  ℕ, ◌+◌, Bool, true, false, Option, none, some, List, [], ◌∷◌, ◌++◌, ◌==◌, nat_eq, if◌then◌else◌,
  length,
}
use tunnelbridge.Prelude.Text.{Text}
use tunnelbridge.Prelude.Map.{get, insert, remove}
use tunnelbridge.Protocol.{
  Uuid, connection_ack, carrier_frame_data, carrier_frame_fin, carrier_frame_reset,
  carrier_frame_datagram,
}
use tunnelbridge.Protocol.Frame.{UuidBytes, encode_carrier_frame, decode_carrier_frame}
use tunnelbridge.Server.Bridge.{
  Read, bytes, read_failed, Received, inbox_frame, inbox_closed, idle, Outcome, running, finished,
  broken, Sink,
}
use tunnelbridge.Agent.Runtime.{Session, Outbound, control, binary}

-- `outbound.send(…)`
unfoldable pub send_outbound : Session → Outbound → Option Session
send_outbound s m = if s.is_open then some (record s { outbound = s.outbound ++ m ∷ [] }) else none

unfoldable pub count_up : ℕ → Session → Session
count_up n s = record s {
  runtime = record s.runtime {
    metrics = record s.runtime.metrics { bytes_up = s.runtime.metrics.bytes_up + n };
  };
}

unfoldable pub count_down : ℕ → Session → Session
count_down n s = record s {
  runtime = record s.runtime {
    metrics = record s.runtime.metrics { bytes_down = s.runtime.metrics.bytes_down + n };
  };
}

-- The answer to a request to open a connection or a session.
unfoldable pub ack : Uuid → Text → Option Text → Outbound
ack id ticket none = control (
    connection_ack
      (record { connection_id = id; accepted = true; error = none; ticket = some ticket }))
ack id ticket (some error) = control (
    connection_ack
      (record { connection_id = id; accepted = false; error = some error; ticket = some ticket }))

-- `streams.insert(…)` and the acceptance, or the refusal with the error of the local target. The
-- result says whether the function goes on.
unfoldable pub open_local : Session → Uuid → Text → Option Text → Outcome × Session
unfolding send_outbound ack
open_local s id ticket (some error) = elim (send_outbound s (ack id ticket (some error))) [
  | none ↦ (broken, s)
  | some s' ↦ (broken, s')
]
open_local s id ticket none =
    let s' = record s { streams = insert s.streams id [] } in
    elim (send_outbound s' (ack id ticket none)) [ none ↦ (broken, s') | some s'' ↦ (running, s'') ]

-- `streams.remove(&id)`
unfoldable pub close_local : Session → Uuid → Session
close_local s id = record s { streams = remove s.streams id }

module _ (uuid : UuidBytes) where
  unfoldable pub route_local_frame : Session → List ℕ → Session
  route_local_frame s frame = elim (decode_carrier_frame uuid frame) [
    | none ↦ s
    | some f ↦ elim (get s.streams f.id) [
      | none ↦ s
      | some inbox ↦ record s {
        streams =
            insert s.streams f.id (inbox ++ record { kind = f.kind; payload = f.payload } ∷ []);
      }
    ]
  ]

module _ (uuid : UuidBytes) (id : Uuid) where
  -- One turn of the loop `upstream` of `bridge_local`.
  unfoldable pub up_turn : Session → Read → Outcome × Session
  unfolding send_outbound count_up
  up_turn s read_failed = (broken, s)
  up_turn s (bytes []) =
      elim (send_outbound s (binary (encode_carrier_frame uuid carrier_frame_fin id []))) [
        | none ↦ (broken, s)
        | some s' ↦ (finished, s')
      ]
  up_turn s (bytes (b ∷ bs)) =
      elim (send_outbound s (binary (encode_carrier_frame uuid carrier_frame_data id (b ∷ bs)))) [
        | none ↦ (broken, s)
        | some s' ↦ (running, count_up (length (b ∷ bs)) s')
      ]

  unfoldable pub upstream : Session → List Read → Outcome × Session
  unfolding up_turn
  upstream s [] = (running, s)
  upstream s (r ∷ rs) =
      let (o, s') = up_turn s r in
      elim o [ running ↦ upstream s' rs | finished ↦ (finished, s') | broken ↦ (broken, s') ]

  -- One turn of the loop `outgoing` of `open_udp_session`: a datagram of the local target, or the
  -- failure that ends the loop, the idle timeout after 60 seconds among them.
  unfoldable pub outgoing_turn : Session → Option (List ℕ) → Outcome × Session
  unfolding send_outbound count_up
  outgoing_turn s none = (broken, s)
  outgoing_turn s (some datagram) =
      elim (send_outbound s
        (binary (encode_carrier_frame uuid carrier_frame_datagram id datagram))) [
          | none ↦ (broken, s)
          | some s' ↦ (running, count_up (length datagram) s')
        ]

-- One turn of the loop `downstream` of `bridge_local`.
unfoldable pub down_turn : Session → Sink → Received → Outcome × Session × Sink
unfolding count_down
down_turn s sink inbox_closed = (finished, s, sink)
down_turn s sink idle = (broken, s, sink)
down_turn s sink (inbox_frame f) =
    if f.kind == carrier_frame_data
    then if sink.is_open
      then (
        running,
        count_down (length f.payload) s,
        record sink { written = sink.written ++ f.payload },
      )
      else (broken, s, sink)
    else if f.kind == carrier_frame_fin
    then if sink.is_open then (finished, s, record sink { is_shut = true }) else (broken, s, sink)
    else if f.kind == carrier_frame_reset
    then (broken, s, sink)
    else (running, s, sink)

unfoldable pub downstream : Session → Sink → List Received → Outcome × Session × Sink
unfolding down_turn
downstream s sink [] = (running, s, sink)
downstream s sink (r ∷ rs) =
    let (o, s', sink') = down_turn s sink r in
    elim o [
      | running ↦ downstream s' sink' rs
      | finished ↦ (finished, s', sink')
      | broken ↦ (broken, s', sink')
    ]

-- One turn of the loop `inbound` of `open_udp_session`, which has no idle timeout; the datagrams that
-- were sent are kept apart.
unfoldable pub inbound_turn :
    Session → List (List ℕ) → Bool → Received → Outcome × Session × List (List ℕ)
unfolding count_down
inbound_turn s sent can_send (inbox_frame f) =
    if f.kind == carrier_frame_datagram
    then if can_send
      then (running, count_down (length f.payload) s, sent ++ f.payload ∷ [])
      else (broken, s, sent)
    else (running, s, sent)
inbound_turn s sent can_send _ = (finished, s, sent)

-- The end of `open_multiplexed_stream`: the stream is removed whatever `bridge_local` returned.
unfoldable pub end_stream : Session → Uuid → Outcome → Outcome × Session
unfolding close_local
end_stream s id result = (result, close_local s id)

-- The end of `open_udp_session`: `result?` returns before the stream is removed.
unfoldable pub end_udp_session : Session → Uuid → Outcome → Outcome × Session
unfolding close_local
end_udp_session s id broken = (broken, s)
end_udp_session s id result = (result, close_local s id)
