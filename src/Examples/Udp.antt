-- ===== src/Examples/Udp.antt =====
-- The theorems on UDP sessions, at values.
use tunnelbridge.Prelude.{◌≡◌, ◌+◌, refl, true, false, some, [], ◌∷◌, arith, nat_eq}
use tunnelbridge.Prelude.Map.{get}
use tunnelbridge.Net.{v4, SocketAddr, socket_eq}
use tunnelbridge.Protocol.{ActiveTransport}
use tunnelbridge.Server.State.{AppState, AgentPeer, Carrier}
use tunnelbridge.Server.Udp.{Sessions, receive, resume, sweep}
use tunnelbridge.Server.Udp.Sweep.{Swept, sweep_lem}
use tunnelbridge.Server.Udp.Counted.{Counts, Reach, start, step, datagram, answer, Reach-Counts}
use tunnelbridge.Agent.Runtime
use tunnelbridge.Agent.Runtime.{new}
use tunnelbridge.Relay.Datagrams.{Arrives, datagram_to_device}
use tunnelbridge.Examples.Data.{uuid_bytes, contains, hash_token, print_addr, state, tunnel, draw}

abbrev peer : SocketAddr
peer = record { ip = v4 9; port = 5000 }

abbrev sessions : Sessions
sessions = (peer, record { id = 500; last_seen = 900 }) ∷ []

abbrev agent : AgentPeer
agent = record { session_id = 70; transport = ActiveTransport.quic }

abbrev carrier : Carrier
carrier = record { control = []; binary = []; is_open = true; cancelled = false }

abbrev device : Runtime.Session
device = record { runtime = new; streams = (500, []) ∷ []; outbound = []; is_open = true }

abbrev counting : AppState
counting = record state { counters = record state.counters { active_udp = 1 } }

datagram_to_device_example :
    Arrives contains hash_token print_addr uuid_bytes 70 500 carrier
      (1 ∷ 2 ∷ [])
      (receive contains hash_token print_addr uuid_bytes state sessions tunnel peer
        (1 ∷ 2 ∷ [])
        draw).1
      device
      []
      []
    × (get
          (receive contains hash_token print_addr uuid_bytes state sessions tunnel peer
            (1 ∷ 2 ∷ [])
            draw).2
          peer
        ≡ some (record { id = 500; last_seen = 1000 }))
    × ((receive contains hash_token print_addr uuid_bytes state sessions tunnel peer
          (1 ∷ 2 ∷ [])
          draw).1.counters.bytes_down
        ≡ 0 + 2)
unfolding tunnelbridge.Server.Tunnels.Source.source_allowed get
datagram_to_device_example =
    datagram_to_device contains hash_token print_addr uuid_bytes state sessions tunnel peer
      (1 ∷ 2 ∷ []) draw (record { id = 500; last_seen = 900 }) agent carrier device [] [] refl refl
      refl refl refl (omega arith) refl

-- The session has been idle for its 60 seconds.
sweep_example : Swept 60900 counting sessions (sweep counting 60900 sessions)
sweep_example = sweep_lem counting 60900 sessions (omega arith) (omega arith)

started : Reach contains hash_token print_addr uuid_bytes tunnel 1 (counting, [])
started = start (omega arith) (omega arith)

-- The first datagram of a peer, and the agent's refusal of its session.
Reach-Counts_example : Counts 1 (
    resume contains hash_token print_addr uuid_bytes
      (receive contains hash_token print_addr uuid_bytes counting [] tunnel peer (1 ∷ []) draw).1
      (receive contains hash_token print_addr uuid_bytes counting [] tunnel peer (1 ∷ []) draw).2
      tunnel
      peer
      agent
      (1 ∷ [])
      draw
      1100)
unfolding receive tunnelbridge.Server.Tunnels.Source.source_allowed get
Reach-Counts_example = Reach-Counts contains hash_token print_addr uuid_bytes tunnel (
    step (step started (datagram peer (1 ∷ []) draw))
      (answer peer agent (1 ∷ []) draw 1100 (omega arith)))
