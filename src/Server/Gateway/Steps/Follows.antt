-- ===== src/Server/Gateway/Steps/Follows.antt =====
-- How a step of Gateway/Steps changes the entries of a connection; the steps that open one
-- (server/src/gateway.rs, `accept_public_connection` and `open_virtual_stream`).
use tunnelbridge.Prelude.{
  ◌+◌, ◌≡◌, Bool, true, false, [], arith, nat_eq, nat_beq_iff, Option-cases, inl, inr, Bool-cases,
}
use tunnelbridge.Prelude.Text.{Text}
use tunnelbridge.Prelude.Map.{get, contains_key, contains_key-insert}
use tunnelbridge.Net.{IpAddr, IpNet, SocketAddr}
use tunnelbridge.Protocol.{Uuid, Tunnel}
use tunnelbridge.Protocol.Frame.{UuidBytes}
use tunnelbridge.Server.State.{AppState, AgentPeer, count_rejected, count_failed}
use tunnelbridge.Server.Tunnels.Rows.{Columns}
use tunnelbridge.Server.Tunnels.Source.{source_allowed}
use tunnelbridge.Server.Gateway.Connection.{
  Draw, register, send_control, ask_agent, accept_connection, accept_virtual,
}
use tunnelbridge.Server.Gateway.Steps.{stage_ok, id_ok}

-- A step keeps the entries of every connection consistent.
unfoldable pub Follows : AppState → AppState → Type 0
Follows s s' = (id : Uuid) → id_ok s id ≡ true → id_ok s' id ≡ true

module _ (contains : IpNet → IpAddr → Bool) (hash_token : Text → Text)
    (print_addr : SocketAddr → Text) (columns : Columns) (uuid : UuidBytes)
    (before : Text → Text → Bool) where
  -- The tables of a connection that waits for its agent.
  pub ask_maps :
      (s : AppState) (tunnel : Tunnel) (peer : SocketAddr) (agent : AgentPeer) (draw : Draw)
      → let s' = (ask_agent contains hash_token print_addr s tunnel peer agent draw).1 in
        let r = register hash_token s tunnel.agent_id draw in
        (s'.pending ≡ r.pending)
        × (s'.acks ≡ s.acks)
        × (s'.active ≡ s.active)
        × (s'.streams ≡ r.streams)
  unfolding ask_agent send_control register
  ask_maps s tunnel peer agent draw = elim (Option-cases (get s.carriers agent.session_id)) [
    | inl e ↦ (ground arith, ground arith, ground arith, ground arith)
    | inr (c, e) ↦ (ground arith, ground arith, ground arith, ground arith)
  ]

  register_ok :
      (s : AppState) (agent_id : Uuid) (draw : Draw)
      → contains_key s.streams draw.connection_id ≡ false
      → Follows s (register hash_token s agent_id draw)
  unfolding Follows id_ok stage_ok register
  register_ok s agent_id draw fresh id h = ground (
    arith,
    contains_key-insert s.streams draw.connection_id id [],
    contains_key-insert s.pending draw.connection_id id (record {
      agent_id = agent_id;
      ticket_hash = hash_token draw.ticket;
      expires_at = draw.now + s.config.ticket_ttl;
    }),
    nat_beq_iff draw.connection_id id,
  )

  -- What looks at the four tables only.
  pub same_maps :
      (start s s' : AppState)
      → s'.pending ≡ s.pending
      → s'.acks ≡ s.acks
      → s'.active ≡ s.active
      → s'.streams ≡ s.streams
      → Follows start s
      → Follows start s'
  unfolding Follows id_ok
  same_maps start s s' p a c t f id h = rw (p, a, c, t) (f id h)

  pub stays : (s : AppState) → Follows s s
  unfolding Follows id_ok
  stays s id h = ground arith

  accept_ok :
      (s : AppState) (tunnel : Tunnel) (peer : SocketAddr) (agent : AgentPeer) (draw : Draw)
      → contains_key s.streams draw.connection_id ≡ false
      → Follows s (ask_agent contains hash_token print_addr s tunnel peer agent draw).1
  unfolding register
  accept_ok s tunnel peer agent draw fresh =
      let (p, a, c, t) = ask_maps s tunnel peer agent draw in
      same_maps s (register hash_token s tunnel.agent_id draw)
        (ask_agent contains hash_token print_addr s tunnel peer agent draw).1 p a c t
        (register_ok s tunnel.agent_id draw fresh)

  pub accept_connection_ok :
      (s : AppState) (tunnel : Tunnel) (peer : SocketAddr) (draw : Draw)
      → contains_key s.streams draw.connection_id ≡ false
      → Follows s (accept_connection contains hash_token print_addr s tunnel peer draw).1
  unfolding accept_connection count_rejected count_failed Follows id_ok stage_ok
  accept_connection_ok s tunnel peer draw fresh id h =
      elim (Bool-cases (source_allowed contains tunnel peer.ip)) [
        | inl passed ↦ elim (Option-cases (get s.agents tunnel.agent_id)) [
          | inl e ↦ ground arith
          | inr (agent, e) ↦ ground (arith, accept_ok s tunnel peer agent draw fresh id h)
        ]
        | inr stopped ↦ ground arith
      ]

  pub accept_virtual_ok :
      (s : AppState) (tunnel : Tunnel) (peer : SocketAddr) (draw : Draw)
      → contains_key s.streams draw.connection_id ≡ false
      → Follows s (accept_virtual contains hash_token print_addr s tunnel peer draw).1
  unfolding accept_virtual count_rejected Follows id_ok stage_ok
  accept_virtual_ok s tunnel peer draw fresh id h =
      elim (Bool-cases (source_allowed contains tunnel peer.ip)) [
        | inl passed ↦ elim (Option-cases (get s.agents tunnel.agent_id)) [
          | inl e ↦ ground arith
          | inr (agent, e) ↦ ground (arith, accept_ok s tunnel peer agent draw fresh id h)
        ]
        | inr stopped ↦ ground arith
      ]
