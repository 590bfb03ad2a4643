-- ===== src/Server/Gateway/Connection.antt =====
-- server/src/gateway.rs: `accept_public_connection`, `acknowledge_connection`, `open_virtual_stream`
-- and `route_carrier_frame`. New identifiers, tickets, the time and the location of the source are
-- arguments; `IpNet::contains`, the hash of a ticket and the printed address are parameters.
use tunnelbridge.Prelude.{
  ℕ, ◌+◌, Bool, true, false, not, ◌||◌, Option, none, some, List, [], ◌∷◌, ◌++◌, leb, ◌==◌, nat_eq,
  if◌then◌else◌,
}
use tunnelbridge.Prelude.Text.{Text, text_eq, codes}
use tunnelbridge.Prelude.Map.{get, insert, remove}
use tunnelbridge.Prelude.Result.{Result, ok, err}
use tunnelbridge.Net.{IpAddr, IpNet, SocketAddr}
use tunnelbridge.Protocol.{
  Uuid, DateTime, Tunnel, GeoLocation, OpenRequest, AgentControlMessage, open_connection,
  ActiveConnection,
}
use tunnelbridge.Protocol.Frame.{UuidBytes, decode_carrier_frame}
use tunnelbridge.Server.Db.{HistoryRow}
use tunnelbridge.Server.State.{AppState, AgentPeer, PendingConnection, count_rejected, count_failed}
use tunnelbridge.Server.Tunnels.Rows.{Columns}
use tunnelbridge.Server.Tunnels.Source.{source_allowed}

pub data OpenError : Type 0 where
  not_allowed agent_offline send_failed timed_out : OpenError
  refused : Text → OpenError

-- What one call draws from its environment.
pub record Draw : Type 0 where
  pub connection_id : Uuid
  pub ticket : Text
  pub now : ℕ
  pub utc_now : DateTime
  pub location : Option GeoLocation

-- `sender.send(message)` of an unbounded channel, which fails once the receiver is gone.
unfoldable pub send_control : AppState → Uuid → AgentControlMessage → Option AppState
send_control s session_id message = elim (get s.carriers session_id) [
  | none ↦ none
  | some carrier ↦
      if carrier.is_open
      then some (record s {
        carriers =
            insert s.carriers session_id
              (record carrier { control = carrier.control ++ message ∷ [] });
      })
      else none
]

-- The entries that a connection has before its agent answers.
unfoldable pub register : (Text → Text) → AppState → Uuid → Draw → AppState
register hash_token s agent_id draw = record s {
  streams = insert s.streams draw.connection_id [];
  pending = insert s.pending draw.connection_id (record {
    agent_id = agent_id;
    ticket_hash = hash_token draw.ticket;
    expires_at = draw.now + s.config.ticket_ttl;
  });
}

-- `state.pending.remove(&id); state.streams.remove(&id);`
unfoldable pub forget : AppState → Uuid → AppState
forget s id = record s { pending = remove s.pending id; streams = remove s.streams id }

unfoldable pub open_request : (SocketAddr → Text) → Tunnel → SocketAddr → Draw → ℕ → OpenRequest
open_request print_addr tunnel peer draw ttl = record {
  id = draw.connection_id;
  tunnel = tunnel;
  peer_addr = print_addr peer;
  peer_location = draw.location;
  ticket = draw.ticket;
  expires_at = draw.utc_now + ttl;
}

module _ (contains : IpNet → IpAddr → Bool) (hash_token : Text → Text)
    (print_addr : SocketAddr → Text) where
  -- Registers the connection and asks the agent to open its end. A failed `send` returns at once.
  unfoldable pub ask_agent :
      AppState → Tunnel → SocketAddr → AgentPeer → Draw → Result OpenError AgentPeer × AppState
  unfolding register send_control open_request
  ask_agent s tunnel peer agent draw =
      let s' = register hash_token s tunnel.agent_id draw in
      let request = open_request print_addr tunnel peer draw s.config.ticket_ttl in
      elim (send_control s' agent.session_id (open_connection request)) [
        | none ↦ (err send_failed, s')
        | some s'' ↦ (ok agent, s'')
      ]

  -- `accept_public_connection` up to the wait for the agent's answer.
  unfoldable pub accept_connection :
      AppState → Tunnel → SocketAddr → Draw → Result OpenError AgentPeer × AppState
  unfolding count_rejected count_failed
  accept_connection s tunnel peer draw =
      if source_allowed contains tunnel peer.ip
      then elim (get s.agents tunnel.agent_id) [
        | none ↦ (err agent_offline, count_failed s)
        | some agent ↦ ask_agent s tunnel peer agent draw
      ]
      else (err not_allowed, count_rejected s)

  -- `open_virtual_stream` up to the wait; an offline agent is not counted.
  unfoldable pub accept_virtual :
      AppState → Tunnel → SocketAddr → Draw → Result OpenError AgentPeer × AppState
  unfolding count_rejected
  accept_virtual s tunnel peer draw =
      if source_allowed contains tunnel peer.ip
      then elim (get s.agents tunnel.agent_id) [
        | none ↦ (err agent_offline, s)
        | some agent ↦ ask_agent s tunnel peer agent draw
      ]
      else (err not_allowed, count_rejected s)

-- The refusal that an agent gives no reason for.
unfoldable pub refusal : Option Text → Text
refusal none = codes "local target rejected connection"
refusal (some error) = error

module _ (hash_token : Text → Text) where
  -- `ticket.is_none_or(|ticket| pending.ticket_hash != hash_token(ticket))`
  unfoldable pub wrong_ticket : PendingConnection → Option Text → Bool
  wrong_ticket p none = true
  wrong_ticket p (some ticket) = not (p.ticket_hash == hash_token ticket)

  unfoldable pub acknowledge_connection :
      AppState → ℕ → Uuid → Uuid → Option Text → Bool → Option Text → Bool × AppState
  unfolding wrong_ticket refusal
  acknowledge_connection s now connection_id agent_id ticket accepted error =
      elim (get s.pending connection_id) [
        | none ↦ (false, s)
        | some p ↦
            if not (p.agent_id == agent_id) || (leb p.expires_at now || wrong_ticket p ticket)
            then (false, s)
            else (
              true,
              record s {
                pending = remove s.pending connection_id;
                acks =
                    insert s.acks connection_id (if accepted then none else some (refusal error));
              },
            )
      ]

-- The wait of `accept_public_connection` ends: by the agent's answer, if there is one, and else
-- because the time is up or the entry that held `ack_tx` is gone.
unfoldable pub await_connection : AppState → Uuid → Result OpenError (Unit {0}) × AppState
unfolding forget count_failed
await_connection s id = elim (get s.acks id) [
  | none ↦ (err timed_out, count_failed (forget s id))
  | some none ↦ (ok tt, record s { acks = remove s.acks id })
  | some (some error) ↦ (err (refused error), forget (record s { acks = remove s.acks id }) id)
]

-- The same wait in `open_virtual_stream`, where nothing is counted.
unfoldable pub await_virtual : AppState → Uuid → Result OpenError (Unit {0}) × AppState
unfolding forget
await_virtual s id = elim (get s.acks id) [
  | none ↦ (err timed_out, forget s id)
  | some none ↦ (ok tt, record s { acks = remove s.acks id })
  | some (some error) ↦ (err (refused error), forget (record s { acks = remove s.acks id }) id)
]

-- The entry of an accepted connection.
unfoldable pub activate : AppState → Tunnel → AgentPeer → Text → Draw → AppState
activate s tunnel agent peer_addr draw = record s {
  active = insert s.active draw.connection_id (record {
    id = draw.connection_id;
    tunnel_id = tunnel.id;
    peer_addr = peer_addr;
    peer_location = draw.location;
    opened_at = draw.utc_now;
    bytes_up = 0;
    bytes_down = 0;
    tunnel_kind = tunnel.kind;
    transport = some agent.transport;
  });
}

-- The row of the table `connection_history`.
pub history_row : Columns → ActiveConnection → DateTime → HistoryRow
history_row columns c closed_at = record {
  id = columns.uuid_text c.id;
  tunnel_id = columns.uuid_text c.tunnel_id;
  peer_addr = c.peer_addr;
  opened_at = columns.rfc3339 c.opened_at;
  closed_at = columns.rfc3339 closed_at;
  bytes_up = c.bytes_up;
  bytes_down = c.bytes_down;
}

-- What `accept_public_connection` does when the bridge has ended.
unfoldable pub close_connection : Columns → AppState → Uuid → DateTime → AppState
unfolding history_row
close_connection columns s id closed_at =
    let s' = record s { streams = remove s.streams id; active = remove s.active id } in
    elim (get s.active id) [
      | none ↦ s'
      | some c ↦ record s' {
        db = record s.db {
          connection_history = history_row columns c closed_at ∷ s.db.connection_history;
        };
      }
    ]

-- What `open_virtual_stream` does when the bridge has ended.
unfoldable pub close_virtual : AppState → Uuid → AppState
close_virtual s id = record s { streams = remove s.streams id; active = remove s.active id }

-- A frame goes to the inbox of its stream; a frame of no stream is dropped. The inbox of the source
-- holds 64 frames, and its sender waits while it is full.
unfoldable pub route_carrier_frame : UuidBytes → AppState → List ℕ → AppState
route_carrier_frame uuid s bytes = elim (decode_carrier_frame uuid bytes) [
  | none ↦ s
  | some frame ↦ elim (get s.streams frame.id) [
    | none ↦ s
    | some inbox ↦ record s {
      streams =
          insert s.streams frame.id
            (inbox ++ record { kind = frame.kind; payload = frame.payload } ∷ []);
    }
  ]
]
