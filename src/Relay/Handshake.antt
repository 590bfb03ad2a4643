-- ===== src/Relay/Handshake.antt =====
-- How a public connection is opened: `accept_public_connection` of server/src/gateway.rs, the agent's
-- `open_multiplexed_stream`, and `acknowledge_connection`.
use tunnelbridge.Prelude.{
  ℕ, ◌+◌, ◌<◌, ◌≡◌, refl, Bool, true, none, some, [], ◌∷◌, ◌++◌, nat_eq, arith, ==_refl,
}
use tunnelbridge.Prelude.Text.{Text, text_eq}
use tunnelbridge.Prelude.Map.{get, get-insert}
use tunnelbridge.Prelude.Result.{ok}
use tunnelbridge.Net.{IpAddr, IpNet, SocketAddr}
use tunnelbridge.Protocol.{
  Uuid, DateTime, Tunnel, OpenRequest, open_connection, Ack, connection_ack,
}
use tunnelbridge.Server.State.{AppState, AgentPeer, Carrier, PendingConnection}
use tunnelbridge.Server.Tunnels.Source.{source_allowed}
use tunnelbridge.Server.Gateway.Connection
use tunnelbridge.Server.Gateway.Connection.{
  Draw, accept_connection, ask_agent, send_control, register, acknowledge_connection, wrong_ticket,
  await_connection,
}
use tunnelbridge.Server.Bridge.{running}
use tunnelbridge.Agent.Runtime
use tunnelbridge.Agent.Runtime.{control}
use tunnelbridge.Agent.Local.{open_local, send_outbound, ack}
use tunnelbridge.Agent.Dispatch
use tunnelbridge.Agent.Dispatch.{open_multiplexed_stream, with_runtime, takes}

module _ (contains : IpNet → IpAddr → Bool) (hash_token : Text → Text)
    (print_addr : SocketAddr → Text) (closed : Text) where
  -- The request that the agent gets, and its answer, which the server takes.
  unfoldable pub Opens :
      AppState
      → Uuid
      → AgentPeer
      → Carrier
      → Runtime.Session
      → ℕ
      → Uuid
      → DateTime
      → AppState
      → Type 0
  Opens s agent_id agent c a later id now s1 =
      (request : OpenRequest) × (answer : Ack) × (request.id ≡ id)
      × (get s1.carriers agent.session_id
          ≡ some (record c { control = c.control ++ open_connection request ∷ [] }))
      × ((open_multiplexed_stream closed a now request takes).0 ≡ running)
      × (get (open_multiplexed_stream closed a now request takes).1.streams id ≡ some [])
      × ((open_multiplexed_stream closed a now request takes).1.outbound
          ≡ a.outbound ++ control (connection_ack answer) ∷ [])
      × ((acknowledge_connection hash_token s1 later answer.connection_id agent_id answer.ticket
            answer.accepted answer.error).0
          ≡ true)
      × ((await_connection
            (acknowledge_connection hash_token s1 later answer.connection_id agent_id answer.ticket
              answer.accepted answer.error).1
            id).0
          ≡ ok tt)

  -- The connection's entries and the request in the agent's queue.
  Asked : AppState → Uuid → AgentPeer → Carrier → Draw → AppState → Type 0
  Asked s agent_id agent c draw s1 =
      (request : OpenRequest) × (request.id ≡ draw.connection_id)
      × (request.ticket ≡ draw.ticket)
      × (get s1.carriers agent.session_id
          ≡ some (record c { control = c.control ++ open_connection request ∷ [] }))
      × (get s1.pending draw.connection_id
          ≡ some (record {
            agent_id = agent_id;
            ticket_hash = hash_token draw.ticket;
            expires_at = draw.now + s.config.ticket_ttl;
          }))

  accept_connection-Asked :
      (s : AppState) (tunnel : Tunnel) (peer : SocketAddr) (draw : Draw) (agent : AgentPeer)
      (c : Carrier)
      → source_allowed contains tunnel peer.ip ≡ true
      → get s.agents tunnel.agent_id ≡ some agent
      → get s.carriers agent.session_id ≡ some c
      → c.is_open ≡ true
      → ((accept_connection contains hash_token print_addr s tunnel peer draw).0 ≡ ok agent)
        × Asked s tunnel.agent_id agent c draw
            (accept_connection contains hash_token print_addr s tunnel peer draw).1
  unfolding Asked accept_connection ask_agent send_control register
  accept_connection-Asked s tunnel peer draw agent c allowed online found live =
      let request : OpenRequest =
        Connection.open_request print_addr tunnel peer draw s.config.ticket_ttl in
      let entry : PendingConnection = record {
        agent_id = tunnel.agent_id;
        ticket_hash = hash_token draw.ticket;
        expires_at = draw.now + s.config.ticket_ttl;
      } in
      (
        ground (arith, allowed, online, found, live),
        (
          request,
          unfold Connection.open_request in refl,
          unfold Connection.open_request in refl,
          ground (
            arith,
            allowed,
            online,
            found,
            live,
            get-insert s.carriers agent.session_id agent.session_id
                (record c { control = c.control ++ open_connection request ∷ [] }),
            ==_refl agent.session_id,
          ),
          ground (
            arith,
            allowed,
            online,
            found,
            live,
            get-insert s.pending draw.connection_id draw.connection_id entry,
            ==_refl draw.connection_id,
          ),
        ),
      )

  redeem :
      (s1 : AppState) (later agent_id id expires_at : ℕ) (ticket : Text)
      → get s1.pending id
        ≡ some (record {
          agent_id = agent_id;
          ticket_hash = hash_token ticket;
          expires_at = expires_at;
        })
      → later < expires_at
      → ((acknowledge_connection hash_token s1 later id agent_id (some ticket) true none).0 ≡ true)
        × ((await_connection
              (acknowledge_connection hash_token s1 later id agent_id (some ticket) true none).1
              id).0
            ≡ ok tt)
  unfolding acknowledge_connection wrong_ticket await_connection
  redeem s1 later agent_id id expires_at ticket waits early = (
    ground (arith, waits, ==_refl agent_id, ==_refl (hash_token ticket)),
    ground (
      arith,
      waits,
      ==_refl agent_id,
      ==_refl (hash_token ticket),
      get-insert s1.acks id id none,
      ==_refl id,
    ),
  )

  answer_lem :
      (a : Runtime.Session) (now : DateTime) (request : OpenRequest)
      → a.is_open ≡ true
      → ((open_multiplexed_stream closed a now request takes).0 ≡ running)
        × (get (open_multiplexed_stream closed a now request takes).1.streams request.id ≡ some [])
        × ((open_multiplexed_stream closed a now request takes).1.outbound
            ≡ a.outbound
              ++ control (
                  connection_ack (record {
                    connection_id = request.id;
                    accepted = true;
                    error = none;
                    ticket = some request.ticket;
                  }))
                ∷ [])
  unfolding open_multiplexed_stream Dispatch.open_request open_local send_outbound ack with_runtime
  answer_lem a now request connected = (
    ground (arith, connected),
    ground (arith, connected, get-insert a.streams request.id request.id [], ==_refl request.id),
    ground (arith, connected),
  )

  -- A public connection is opened from end to end. If the tunnel allows the source, the agent is online,
  -- both ends of the carrier are open and the local target takes the connection, then
  -- `accept_connection` queues a request for the agent; the agent, given that request, has an empty inbox
  -- for the connection, goes on to its bridge, and queues one answer; and the server, given that answer
  -- before the ticket runs out, takes it, and its wait ends with the connection accepted.
  pub handshake :
      (s : AppState) (tunnel : Tunnel) (peer : SocketAddr) (draw : Draw) (agent : AgentPeer)
      (c : Carrier) (a : Runtime.Session) (now : DateTime) (later : ℕ)
      → source_allowed contains tunnel peer.ip ≡ true
      → get s.agents tunnel.agent_id ≡ some agent
      → get s.carriers agent.session_id ≡ some c
      → c.is_open ≡ true
      → a.is_open ≡ true
      → later < draw.now + s.config.ticket_ttl
      → ((accept_connection contains hash_token print_addr s tunnel peer draw).0 ≡ ok agent)
        × Opens s tunnel.agent_id agent c a later draw.connection_id now
            (accept_connection contains hash_token print_addr s tunnel peer draw).1
  unfolding Asked Opens
  handshake s tunnel peer draw agent c a now later allowed online found live connected early =
      let (accepted, asked) =
        accept_connection-Asked s tunnel peer draw agent c allowed online found live in
      let (request, same, ticket, queued, waits) = asked in
      let s1 = (accept_connection contains hash_token print_addr s tunnel peer draw).1 in
      let (goes_on, inbox, answered) = answer_lem a now request connected in
      let (taken, done) =
        redeem s1 later tunnel.agent_id draw.connection_id (draw.now + s.config.ticket_ttl)
          draw.ticket waits early in
      (
        accepted,
        (
          request,
          record {
            connection_id = draw.connection_id;
            accepted = true;
            error = none;
            ticket = some draw.ticket;
          },
          same,
          queued,
          goes_on,
          rw same at inbox,
          ground (arith, answered, same, ticket),
          taken,
          done,
        ),
      )
