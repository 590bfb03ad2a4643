-- ===== src/Relay/Datagrams.antt =====
-- A datagram on its way to the device: `start_listener` of server/src/udp.rs and `open_udp_session` of
-- desktop/src-tauri/src/agent.rs.
use tunnelbridge.Prelude.{
  ℕ, ◌+◌, ◌^◌, ◌<◌, ◌≡◌, refl, Bool, true, some, List, [], ◌∷◌, ◌++◌, nat_eq, length, arith,
  ==_refl,
}
use tunnelbridge.Prelude.Text.{Text}
use tunnelbridge.Prelude.Map.{get, get-insert}
use tunnelbridge.Net.{IpAddr, IpNet, SocketAddr, socket_eq}
use tunnelbridge.Protocol.{Uuid, Tunnel, carrier_frame_datagram}
use tunnelbridge.Protocol.Frame.{UuidBytes, encode_carrier_frame}
use tunnelbridge.Server.State.{AppState, AgentPeer, Carrier, InboundCarrierFrame, add_down}
use tunnelbridge.Server.Tunnels.Source.{source_allowed}
use tunnelbridge.Server.Gateway.Connection.{Draw}
use tunnelbridge.Server.Bridge.{running, inbox_frame}
use tunnelbridge.Server.Udp
use tunnelbridge.Server.Udp.{Sessions, receive, forward}
use tunnelbridge.Agent.Runtime
use tunnelbridge.Agent.Local.{route_local_frame, inbound_turn, count_down}
use tunnelbridge.Relay.Frames.{place_own}
use tunnelbridge.Relay.ToDevice.{send_open, route_one}

module _ (contains : IpNet → IpAddr → Bool) (hash_token : Text → Text)
    (print_addr : SocketAddr → Text) (uuid : UuidBytes) where
  -- The carrier has one frame more, which the agent puts into the inbox, and from there to the target.
  unfoldable pub Arrives :
      Uuid
      → Uuid
      → Carrier
      → List ℕ
      → AppState
      → Runtime.Session
      → List InboundCarrierFrame
      → List (List ℕ)
      → Type 0
  Arrives session_id id c bytes s a inbox sent =
      (frame : List ℕ) × (get s.carriers session_id
        ≡ some (record c { binary = c.binary ++ frame ∷ [] }))
      × (get (route_local_frame uuid a frame).streams id
          ≡ some (inbox ++ record { kind = carrier_frame_datagram; payload = bytes } ∷ []))
      × (inbound_turn a sent true
            (inbox_frame (record { kind = carrier_frame_datagram; payload = bytes }))
          ≡ (running, count_down (length bytes) a, sent ++ bytes ∷ []))

  -- A datagram of a known peer, whose address the tunnel allows, while the agent is online and its
  -- carrier open, is queued there as one frame. At an agent that holds the session with any inbox, the
  -- frame puts that datagram behind the inbox, and a target that takes datagrams is sent it as one
  -- datagram, byte for byte. The session's last use is now, and the server's counter has grown by the
  -- length of the datagram.
  pub datagram_to_device :
      (s : AppState) (sessions : Sessions) (tunnel : Tunnel) (peer : SocketAddr) (bytes : List ℕ)
      (draw : Draw) (session : Udp.Session) (agent : AgentPeer) (c : Carrier) (a : Runtime.Session)
      (inbox : List InboundCarrierFrame) (sent : List (List ℕ))
      → source_allowed contains tunnel peer.ip ≡ true
      → get sessions peer ≡ some session
      → get s.agents tunnel.agent_id ≡ some agent
      → get s.carriers agent.session_id ≡ some c
      → c.is_open ≡ true
      → session.id < 2 ^ 128
      → get a.streams session.id ≡ some inbox
      → Arrives agent.session_id session.id c bytes
          (receive contains hash_token print_addr uuid s sessions tunnel peer bytes draw).1
          a
          inbox
          sent
        × (get
              (receive contains hash_token print_addr uuid s sessions tunnel peer bytes draw).2
              peer
            ≡ some (record session { last_seen = draw.now }))
        × ((receive contains hash_token print_addr uuid s sessions tunnel peer bytes
              draw).1.counters.bytes_down
            ≡ s.counters.bytes_down + length bytes)
  unfolding receive forward add_down Arrives
  datagram_to_device s sessions tunnel peer bytes draw session agent c a inbox sent allowed known
        online found live small held =
      let frame = encode_carrier_frame uuid carrier_frame_datagram session.id bytes in
      let (s', queued, kept, same) = send_open s agent.session_id frame c found live in
      let arrives = route_one uuid session.id a frame inbox held in
      let own = place_own uuid session.id carrier_frame_datagram bytes [] small in
      (
        (
          frame,
          ground (arith, allowed, known, online, queued, kept),
          ground (arith, arrives, own),
          unfold inbound_turn in refl,
        ),
        ground (
          arith,
          allowed,
          known,
          online,
          queued,
          get-insert sessions peer peer (record session { last_seen = draw.now }),
          ==_refl peer,
        ),
        ground (arith, allowed, known, online, queued, same),
      )
