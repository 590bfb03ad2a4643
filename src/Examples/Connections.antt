-- ===== src/Examples/Connections.antt =====
-- The theorems on the connections of server/src/gateway.rs, at values.
use tunnelbridge.Prelude.{
  ◌≡◌, ◌↔◌, ◌+◌, ℕ, refl, Bool, true, false, Option, none, some, List, [], ◌∷◌, arith, nat_eq,
}
use tunnelbridge.Prelude.Text.{Text, codes, text_eq}
use tunnelbridge.Prelude.Map.{get, contains_key}
use tunnelbridge.Prelude.Result.{ok}
use tunnelbridge.Net.{v4, SocketAddr}
use tunnelbridge.Server.State.{AppState, AgentPeer}
use tunnelbridge.Protocol.{ActiveTransport}
use tunnelbridge.Server.Gateway.Connection.{
  ask_agent, accept_connection, acknowledge_connection, await_connection, activate,
}
use tunnelbridge.Server.Gateway.Ack.{
  Redeems, acknowledge_connection_lem, acknowledge_connection_once,
}
use tunnelbridge.Server.Gateway.Steps.{
  IsConsistent, Step, Reach, accept, acknowledge, answered, step_after, stay,
}
use tunnelbridge.Server.Gateway.Steps.Invariant.{Reach-IsConsistent}
use tunnelbridge.Examples.Data.{
  uuid_bytes, columns, contains, hash_token, print_addr, state, tunnel, draw,
}

abbrev peer : SocketAddr
peer = record { ip = v4 9; port = 5000 }

abbrev agent : AgentPeer
agent = record { session_id = 70; transport = ActiveTransport.quic }

abbrev before : Text → Text → Bool
before a b = false

abbrev asked : AppState
asked = (accept_connection contains hash_token print_addr state tunnel peer draw).1

abbrev acked : AppState
acked = (acknowledge_connection hash_token asked 2000 500 7 (some (codes "ticket")) true none).1

acknowledge_example :
    ((acknowledge_connection hash_token asked 2000 500 7 (some (codes "ticket")) true none).0
      ≡ true)
    ↔ Redeems hash_token asked 2000 500 7 (some (codes "ticket"))
acknowledge_example =
    acknowledge_connection_lem hash_token asked 2000 500 7 (some (codes "ticket")) true none

acknowledge_once_example :
    acknowledge_connection hash_token acked 2001 500 7 (some (codes "ticket")) true none
    ≡ (false, acked)
unfolding acknowledge_connection get accept_connection
    tunnelbridge.Server.Tunnels.Source.source_allowed ask_agent tunnelbridge.Prelude.Map.insert
    tunnelbridge.Prelude.list_beq
acknowledge_once_example =
    acknowledge_connection_once hash_token asked 2000 500 7 (some (codes "ticket")) true none refl
      2001 7 (some (codes "ticket")) true none

fresh : contains_key state.streams 500 ≡ false
unfolding contains_key get
fresh = refl

accepted : (await_connection acked 500).0 ≡ ok tt
unfolding await_connection get acknowledge_connection accept_connection
    tunnelbridge.Server.Tunnels.Source.source_allowed ask_agent tunnelbridge.Prelude.Map.insert
    tunnelbridge.Prelude.list_beq
accepted = refl

-- A connection is opened, acknowledged and bridged.
bridged :
    Reach contains hash_token print_addr columns uuid_bytes before state
      (activate (await_connection acked 500).1 tunnel agent (codes "peer") draw)
bridged =
    step_after
      (step_after (step_after stay (accept {s = state} tunnel peer draw fresh))
        (acknowledge {s = asked} 2000 500 7 (some (codes "ticket")) true none))
      (answered {s = acked} tunnel agent (codes "peer") draw accepted)

empty : IsConsistent state
unfolding IsConsistent tunnelbridge.Server.Gateway.Steps.id_ok contains_key
empty id = refl

reach_example :
    IsConsistent (activate (await_connection acked 500).1 tunnel agent (codes "peer") draw)
reach_example =
    Reach-IsConsistent contains hash_token print_addr columns uuid_bytes before bridged empty
