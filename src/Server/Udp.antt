-- ===== src/Server/Udp.antt =====
-- server/src/udp.rs. A listener's own `sessions` stands beside the state of the server; what the
-- socket receives, the time, and what `open_session` draws are arguments.
pub mod Counted
pub mod Sweep
use tunnelbridge.Prelude.{
  ℕ, ◌+◌, ◌-◌, ◌%◌, ◌^◌, Bool, true, false, Option, none, some, List, [], ◌∷◌, ltb, length, ◌==◌,
  if◌then◌else◌, nat_eq,
}
use tunnelbridge.Prelude.Text.{Text}
use tunnelbridge.Prelude.Map.{Map, get, insert, remove}
use tunnelbridge.Prelude.Result.{Result, ok, err}
use tunnelbridge.Net.{IpAddr, IpNet, SocketAddr, socket_eq}
use tunnelbridge.Protocol.{
  Uuid, Tunnel, open_udp_session, carrier_frame_datagram, carrier_frame_data,
}
use tunnelbridge.Protocol.Frame.{UuidBytes, encode_carrier_frame}
use tunnelbridge.Server.State.{
  AppState, AgentPeer, InboundCarrierFrame, count_rejected, count_failed, add_up, add_down,
}
use tunnelbridge.Server.Tunnels.Source.{source_allowed}
use tunnelbridge.Server.Gateway.Connection.{
  Draw, OpenError, agent_offline, send_failed, register, send_control, open_request, await_virtual,
  activate,
}
use tunnelbridge.Server.Bridge.{send_binary}

pub record Session : Type 0 where
  pub id : Uuid
  pub last_seen : ℕ

abbrev pub Sessions : Type 0
Sessions = Map SocketAddr Session

-- `active_udp.fetch_add(1)` and `active_udp.fetch_sub(1)` on 64 bits.
unfoldable pub add_udp : AppState → AppState
add_udp s = record s {
  counters = record s.counters { active_udp = (s.counters.active_udp + 1) % 2 ^ 64 };
}

unfoldable pub sub_udp : AppState → AppState
sub_udp s = record s {
  counters = record s.counters { active_udp = (s.counters.active_udp + (2 ^ 64 - 1)) % 2 ^ 64 };
}

-- The entries of a session that has ended.
unfoldable pub drop_entries : AppState → Uuid → AppState
drop_entries s id = record s { streams = remove s.streams id; active = remove s.active id }

-- `now.duration_since(last_seen)` is zero where `last_seen` is later, as `◌-◌` is.
unfoldable pub keep : ℕ → ℕ → Session → Bool
keep timeout now session = ltb (now - session.last_seen) timeout

-- The arm `cleanup.tick()`.
unfoldable pub sweep : AppState → ℕ → Sessions → AppState × Sessions
unfolding keep drop_entries sub_udp
sweep s now [] = (s, [])
sweep s now ((peer, session) ∷ rest) =
    let lives = keep s.config.udp_session_timeout now session in
    let (s', kept) = sweep (if lives then s else sub_udp (drop_entries s session.id)) now rest in
    (s', if lives then (peer, session) ∷ kept else kept)

-- What follows the loop.
unfoldable pub close_all : AppState → Sessions → AppState
unfolding drop_entries
close_all s [] = s
close_all s ((peer, session) ∷ rest) = close_all (drop_entries s session.id) rest

module _ (contains : IpNet → IpAddr → Bool) (hash_token : Text → Text)
    (print_addr : SocketAddr → Text) (uuid : UuidBytes) where
  -- `open_session` up to the wait for the agent's answer.
  unfoldable pub ask_session :
      AppState → Tunnel → SocketAddr → Draw → Result OpenError AgentPeer × AppState
  unfolding register send_control
  ask_session s tunnel peer draw = elim (get s.agents tunnel.agent_id) [
    | none ↦ (err agent_offline, s)
    | some agent ↦
        let s' = register hash_token s tunnel.agent_id draw in
        elim (send_control s' agent.session_id
          (open_udp_session (open_request print_addr tunnel peer draw s.config.ticket_ttl))) [
            | none ↦ (err send_failed, s')
            | some s'' ↦ (ok agent, s'')
          ]
  ]

  -- The rest of `open_session`; the wait ends as in `open_virtual_stream`.
  unfoldable pub opened :
      AppState → Tunnel → SocketAddr → AgentPeer → Draw → Result OpenError Uuid × AppState
  unfolding await_virtual add_udp activate
  opened s tunnel peer agent draw =
      let (result, s') = await_virtual s draw.connection_id in
      elim result [
        | err e ↦ (err e, s')
        | ok _ ↦ (ok draw.connection_id, activate (add_udp s') tunnel agent (print_addr peer) draw)
      ]

  -- A datagram of a session goes to the agent, if one is connected.
  unfoldable pub forward :
      AppState → Sessions → Tunnel → SocketAddr → Uuid → List ℕ → AppState × Sessions
  unfolding send_binary add_down
  forward s sessions tunnel peer id datagram = elim (get s.agents tunnel.agent_id) [
    | none ↦ (s, sessions)
    | some agent ↦
        elim (send_binary s agent.session_id
          (encode_carrier_frame uuid carrier_frame_datagram id datagram)) [
            | none ↦ (s, remove sessions peer)
            | some s' ↦ (add_down (length datagram) s', sessions)
          ]
  ]

  -- The arm `socket.recv_from`, up to the wait of `open_session` where the peer is new: then the
  -- agent that was asked is the result.
  unfoldable pub receive :
      AppState
      → Sessions
      → Tunnel
      → SocketAddr
      → List ℕ
      → Draw
      → Option AgentPeer × AppState × Sessions
  unfolding forward ask_session count_rejected count_failed
  receive s sessions tunnel peer datagram draw =
      if source_allowed contains tunnel peer.ip
      then elim (get sessions peer) [
        | some session ↦
            let seen = insert sessions peer (record session { last_seen = draw.now }) in
            let (s', kept) = forward s seen tunnel peer session.id datagram in (none, s', kept)
        | none ↦
            let (result, s') = ask_session s tunnel peer draw in
            elim result [
              | err e ↦ (none, count_failed s', sessions)
              | ok agent ↦ (some agent, s', sessions)
            ]
      ]
      else (none, count_rejected s, sessions)

  -- The arm goes on when the wait has ended.
  unfoldable pub resume :
      AppState
      → Sessions
      → Tunnel
      → SocketAddr
      → AgentPeer
      → List ℕ
      → Draw
      → ℕ
      → AppState × Sessions
  unfolding opened forward count_failed
  resume s sessions tunnel peer agent datagram draw now =
      let (result, s') = opened s tunnel peer agent draw in
      elim result [
        | err e ↦ (count_failed s', sessions)
        | ok id ↦
            forward s' (insert sessions peer (record { id = id; last_seen = now })) tunnel peer id
              datagram
      ]

-- One turn of the task that `open_session` leaves behind: a frame of the agent goes to the peer.
-- The result says whether the task goes on, and what it has sent.
unfoldable pub respond : AppState → Bool → InboundCarrierFrame → Bool × AppState × List (List ℕ)
unfolding add_up
respond s can_send frame =
    if frame.kind == carrier_frame_datagram
    then if can_send
      then (true, add_up (length frame.payload) s, frame.payload ∷ [])
      else (false, s, [])
    else (true, s, [])
