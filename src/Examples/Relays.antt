-- ===== src/Examples/Relays.antt =====
-- The theorems on the two directions of a relayed connection, at values.
use tunnelbridge.Prelude.{
  ◌≡◌, ◌+◌, ℕ, refl, Bool, true, false, Option, none, some, List, [], ◌∷◌, ◌++◌, map, arith, All,
  length,
}
use tunnelbridge.Prelude.Map.{get, insert}
use tunnelbridge.Protocol.{carrier_frame_data, carrier_frame_fin}
use tunnelbridge.Protocol.Frame.{encode_carrier_frame}
use tunnelbridge.Server.State.{AppState, Carrier}
use tunnelbridge.Server.Bridge
use tunnelbridge.Server.Bridge.{Sink, finished}
use tunnelbridge.Agent.Runtime.{new, Session}
use tunnelbridge.Agent.Local
use tunnelbridge.Relay.Frames.{
  Interleaving, ends, left, right, IsChunk, inbox_of, reads, received, stream_frames, concat,
}
use tunnelbridge.Relay.ToDevice
use tunnelbridge.Relay.ToDevice.{relay_to_device}
use tunnelbridge.Relay.ToClient
use tunnelbridge.Relay.ToClient.{relay_to_client}
use tunnelbridge.Relay.Handshake.{Opens, handshake}
use tunnelbridge.Server.State.{AgentPeer}
use tunnelbridge.Server.Gateway.Connection.{accept_connection}
use tunnelbridge.Protocol.{ActiveTransport}
use tunnelbridge.Net.{v4, SocketAddr}
use tunnelbridge.Prelude.Text.{codes}
use tunnelbridge.Prelude.Result.{ok}
use tunnelbridge.Examples.Data.{uuid_bytes, state, contains, hash_token, print_addr, tunnel, draw}

abbrev chunks : List (List ℕ)
chunks = (1 ∷ 2 ∷ []) ∷ (3 ∷ []) ∷ []

-- A frame of another stream arrives between those of stream 500.
abbrev foreign : List ℕ
foreign = encode_carrier_frame uuid_bytes carrier_frame_data 501 (9 ∷ [])

abbrev first : List ℕ
first = encode_carrier_frame uuid_bytes carrier_frame_data 500 (1 ∷ 2 ∷ [])

abbrev second : List ℕ
second = encode_carrier_frame uuid_bytes carrier_frame_data 500 (3 ∷ [])

abbrev last : List ℕ
last = encode_carrier_frame uuid_bytes carrier_frame_fin 500 []

abbrev own : List (List ℕ)
own = first ∷ second ∷ last ∷ []

abbrev carrier : Carrier
carrier = record { control = []; binary = []; is_open = true; cancelled = false }

abbrev session : Session
session = record { runtime = new; streams = (500, []) ∷ []; outbound = []; is_open = true }

abbrev serving : AppState
serving = record state { streams = (500, []) ∷ [] }

abbrev sink : Sink
sink = record { written = []; is_shut = false; is_open = true }

order : Interleaving own (foreign ∷ []) (first ∷ foreign ∷ second ∷ last ∷ [])
order = left (right (left (left ends)))

chunks-IsChunk : All IsChunk chunks
unfolding IsChunk
chunks-IsChunk = (tt, (tt, tt))

relay_to_device_example :
    ((Bridge.upstream uuid_bytes 70 500 state (reads chunks)).0 ≡ finished)
    × ((Bridge.upstream uuid_bytes 70 500 state (reads chunks)).1.counters.bytes_down ≡ 0 + 3)
    × ToDevice.Delivers
        (ToDevice.route_all uuid_bytes session (first ∷ foreign ∷ second ∷ last ∷ []))
        sink
        (concat chunks)
        (Local.downstream
          (ToDevice.route_all uuid_bytes session (first ∷ foreign ∷ second ∷ last ∷ []))
          sink
          (received (inbox_of chunks)))
unfolding get Bridge.upstream reads insert tunnelbridge.Relay.Frames.frames_of
    tunnelbridge.Protocol.Frame.decode_carrier_frame encode_carrier_frame uuid_bytes
    tunnelbridge.Prelude.Bytes.be_bytes tunnelbridge.Prelude.Bytes.be_value ToDevice.route_all
    Local.route_local_frame inbox_of concat Bridge.up_turn Bridge.send_binary stream_frames
relay_to_device_example =
    relay_to_device uuid_bytes 70 500 state carrier chunks session sink own (foreign ∷ [])
      (first ∷ foreign ∷ second ∷ last ∷ []) (inbox_of chunks) (omega arith) chunks-IsChunk refl
      refl refl order refl refl refl refl

relay_to_client_example :
    ((Local.upstream uuid_bytes 500 session (reads chunks)).0 ≡ finished)
    × ((Local.upstream uuid_bytes 500 session (reads chunks)).1.runtime.metrics.bytes_up
        ≡ session.runtime.metrics.bytes_up + 3)
    × ToClient.Delivers
        (ToClient.route_all uuid_bytes serving (first ∷ foreign ∷ second ∷ last ∷ []))
        sink
        (concat chunks)
        (Bridge.downstream 500
          (ToClient.route_all uuid_bytes serving (first ∷ foreign ∷ second ∷ last ∷ []))
          sink
          (received (inbox_of chunks)))
unfolding get Local.upstream reads insert tunnelbridge.Relay.Frames.frames_of
    tunnelbridge.Protocol.Frame.decode_carrier_frame encode_carrier_frame uuid_bytes
    tunnelbridge.Prelude.Bytes.be_bytes tunnelbridge.Prelude.Bytes.be_value ToClient.route_all
    tunnelbridge.Server.Gateway.Connection.route_carrier_frame inbox_of concat Local.up_turn
    Local.send_outbound
relay_to_client_example =
    relay_to_client uuid_bytes 500 session chunks serving sink own (foreign ∷ [])
      (first ∷ foreign ∷ second ∷ last ∷ []) (inbox_of chunks) (omega arith) chunks-IsChunk refl
      refl order refl refl refl refl

abbrev peer : SocketAddr
peer = record { ip = v4 9; port = 5000 }

abbrev agent : AgentPeer
agent = record { session_id = 70; transport = ActiveTransport.quic }

abbrev asked : AppState
asked = (accept_connection contains hash_token print_addr state tunnel peer draw).1

handshake_example :
    ((accept_connection contains hash_token print_addr state tunnel peer draw).0 ≡ ok agent)
    × Opens contains hash_token print_addr
        (codes "channel closed")
        state
        7
        agent
        carrier
        session
        2000
        500
        6000
        asked
unfolding tunnelbridge.Server.Tunnels.Source.source_allowed get
handshake_example =
    handshake contains hash_token print_addr (codes "channel closed") state tunnel peer draw agent
      carrier session 6000 2000 refl refl refl refl refl (omega arith)
