-- ===== src/Server/Carrier/Reconnect.antt =====
-- A session of server/src/api.rs or server/src/quic.rs that ends after its agent has connected again.
use tunnelbridge.Prelude.{◌≡◌, some, arith, nat_eq, nat_beq_iff, ==_refl}
use tunnelbridge.Prelude.Map.{get, get-insert}
use tunnelbridge.Protocol.{Uuid, DateTime, ActiveTransport, AgentControlMessage}
use tunnelbridge.Server.State.{AppState, AgentPeer}
use tunnelbridge.Server.Tunnels.Rows.{Columns}
use tunnelbridge.Server.Carrier.{
  attach_wss, attach_direct, attach_peer, greet, sync_agent, send_lossy, detach, close_channels,
  is_current,
}
use tunnelbridge.Server.Gateway.Connection.{send_control}

pub send_lossy_agents :
    (s : AppState) (session_id : Uuid) (m : AgentControlMessage)
    → (send_lossy s session_id m).agents ≡ s.agents
unfolding send_lossy send_control
send_lossy_agents s session_id m = ground arith

sync_agent_agents :
    (columns : Columns) (s : AppState) (agent_id : Uuid)
    → (sync_agent columns s agent_id).agents ≡ s.agents
unfolding sync_agent send_lossy send_control
sync_agent_agents columns s agent_id = ground arith

detach_keeps_other :
    (s : AppState) (agent_id old : Uuid) (transport : ActiveTransport) (peer : AgentPeer)
    → get s.agents agent_id ≡ some peer
    → ¬ (peer.session_id ≡ old)
    → get (detach s agent_id old transport).agents agent_id ≡ some peer
unfolding detach is_current close_channels
detach_keeps_other s agent_id old transport peer h new =
    ground (arith, nat_beq_iff peer.session_id old)

attach_wss_agents :
    (columns : Columns) (s : AppState) (agent_id session_id : Uuid) (now : DateTime)
    → get (attach_wss columns s agent_id session_id now).agents agent_id
      ≡ some (record { session_id = session_id; transport = ActiveTransport.wss })
unfolding attach_wss attach_peer greet
attach_wss_agents columns s agent_id session_id now =
    simp (sync_agent_agents, send_lossy_agents, get-insert, ==_refl agent_id)

pub attach_direct_agents :
    (columns : Columns) (s : AppState) (agent_id session_id : Uuid) (transport : ActiveTransport)
    (now : DateTime)
    → get (attach_direct columns s agent_id session_id transport now).agents agent_id
      ≡ some (record { session_id = session_id; transport = transport })
unfolding attach_direct attach_peer greet
attach_direct_agents columns s agent_id session_id transport now =
    simp (sync_agent_agents, send_lossy_agents, get-insert, ==_refl agent_id)

-- An agent that connects again, over WSS or over a direct carrier, stays online when its older session
-- ends: if the two sessions have different identifiers, the agent's peer is the new one afterwards.
-- This holds from every state.
pub attach-detach :
    (columns : Columns) (s : AppState) (agent_id old new : Uuid) (transport ended : ActiveTransport)
    (now : DateTime)
    → ¬ (new ≡ old)
    → (get (detach (attach_wss columns s agent_id new now) agent_id old ended).agents agent_id
        ≡ some (record { session_id = new; transport = ActiveTransport.wss }))
      × (get
            (detach (attach_direct columns s agent_id new transport now) agent_id old ended).agents
            agent_id
          ≡ some (record { session_id = new; transport = transport }))
attach-detach columns s agent_id old new transport ended now ne = (
  detach_keeps_other (attach_wss columns s agent_id new now) agent_id old ended
      (record { session_id = new; transport = ActiveTransport.wss })
      (attach_wss_agents columns s agent_id new now) ne,
  detach_keeps_other (attach_direct columns s agent_id new transport now) agent_id old ended
      (record { session_id = new; transport = transport })
      (attach_direct_agents columns s agent_id new transport now) ne,
)
