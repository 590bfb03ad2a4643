-- ===== src/Server/Carrier/Greeting.antt =====
-- What waits in the queue of a session of server/src/quic.rs or server/src/kcp.rs once it has started.
use tunnelbridge.Prelude.{
  ◌≡◌, refl, true, false, none, some, List, [], ◌∷◌, ◌++◌, arith, ==_refl, nat_eq,
}
use tunnelbridge.Prelude.Map.{get, get-insert}
use tunnelbridge.Prelude.Result.{ok}
use tunnelbridge.Protocol.{
  Uuid, DateTime, Tunnel, AgentControlMessage, welcome, config_sync, protocol_version,
  ActiveTransport,
}
use tunnelbridge.Server.State.{AppState, AgentPeer, Carrier}
use tunnelbridge.Server.Tunnels.Rows.{Columns}
use tunnelbridge.Server.Tunnels.Queries.{list_for_agent}
use tunnelbridge.Server.Carrier.{
  server_capabilities, attach_direct, attach_peer, greet, send_lossy, sync_agent,
}
use tunnelbridge.Server.Carrier.Reconnect.{send_lossy_agents}
use tunnelbridge.Server.Gateway.Connection.{send_control}

-- The messages of a session that wait in its queue.
unfoldable pub queued : AppState → Uuid → List AgentControlMessage
queued s session_id = elim (get s.carriers session_id) [ none ↦ [] | some c ↦ c.control ]

send_lossy_carriers :
    (s : AppState) (session_id : Uuid) (m : AgentControlMessage) (c : Carrier)
    → get s.carriers session_id ≡ some c
    → c.is_open ≡ true
    → get (send_lossy s session_id m).carriers session_id
      ≡ some (record c { control = c.control ++ m ∷ [] })
unfolding send_lossy send_control
send_lossy_carriers s session_id m c found live = ground (
  arith,
  found,
  live,
  get-insert s.carriers session_id session_id (record c { control = c.control ++ m ∷ [] }),
  ==_refl session_id,
)

send_lossy_db : (s : AppState) (id : Uuid) (m : AgentControlMessage) → (send_lossy s id m).db ≡ s.db
unfolding send_lossy send_control
send_lossy_db s id m = ground arith

sync_agent_carriers :
    (columns : Columns) (s : AppState) (agent_id : Uuid) (peer : AgentPeer) (c : Carrier)
    (items : List Tunnel)
    → list_for_agent columns s.db agent_id ≡ ok items
    → get s.agents agent_id ≡ some peer
    → get s.carriers peer.session_id ≡ some c
    → c.is_open ≡ true
    → get (sync_agent columns s agent_id).carriers peer.session_id
      ≡ some (record c { control = c.control ++ config_sync items ∷ [] })
unfolding sync_agent
sync_agent_carriers columns s agent_id peer c items listed online found live =
    rw (sync_agent, listed, online)
      (send_lossy_carriers s peer.session_id (config_sync items) c found live)

module _ (columns : Columns) (s : AppState) (agent_id session_id : Uuid)
    (transport : ActiveTransport) (now : DateTime) (items : List Tunnel)
    (listed : list_for_agent columns s.db agent_id ≡ ok items) where
  greeted : AppState
  unfolding attach_peer greet
  greeted = greet (attach_peer s agent_id session_id transport) session_id transport now

  greeted_carriers :
      get greeted.carriers session_id
      ≡ some (record {
        control = welcome protocol_version now server_capabilities (some transport) ∷ [];
        binary = [];
        is_open = true;
        cancelled = false;
      })
  unfolding greeted attach_peer greet
  greeted_carriers =
      send_lossy_carriers _ session_id _
        (record { control = []; binary = []; is_open = true; cancelled = false })
        (simp (get-insert, ==_refl session_id)) refl

  -- A session that starts has the greeting and then the device's tunnels in its queue.
  pub queued-attach_direct :
      queued (attach_direct columns s agent_id session_id transport now) session_id
      ≡ welcome protocol_version now server_capabilities (some transport) ∷ config_sync items ∷ []
  unfolding queued attach_direct
  queued-attach_direct =
      let peer : AgentPeer = record { session_id = session_id; transport = transport } in
      let online : get greeted.agents agent_id ≡ some peer =
        unfold greeted attach_peer greet in
        simp (send_lossy_agents, get-insert, ==_refl agent_id) in
      let rows : list_for_agent columns greeted.db agent_id ≡ ok items =
        unfold greeted attach_peer greet in simp (send_lossy_db) listed in
      let done =
        sync_agent_carriers columns greeted agent_id peer _ items rows online greeted_carriers
          refl in
      unfold greeted in rw (queued, done) refl
