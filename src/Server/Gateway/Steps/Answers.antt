-- ===== src/Server/Gateway/Steps/Answers.antt =====
-- The steps of Gateway/Steps on the answer that a connection of server/src/gateway.rs waits for.
use tunnelbridge.Prelude.{
  ℕ, ◌≡◌, Bool, false, Option, none, some, arith, nat_eq, nat_beq_iff, Option-cases, inl, inr,
  if◌then◌else◌,
}
use tunnelbridge.Prelude.Text.{Text}
use tunnelbridge.Prelude.Map.{
  get, contains_key, contains_key-insert, contains_key-remove, contains_key_of_get,
  not_contains_key,
}
use tunnelbridge.Prelude.Result.{ok, err}
use tunnelbridge.Net.{IpAddr, IpNet, SocketAddr}
use tunnelbridge.Protocol.{Uuid, Tunnel}
use tunnelbridge.Protocol.Frame.{UuidBytes}
use tunnelbridge.Server.State.{AppState, AgentPeer, count_failed}
use tunnelbridge.Server.Tunnels.Rows.{Columns}
use tunnelbridge.Server.Gateway.Connection.{
  OpenError, Draw, forget, acknowledge_connection, await_connection, await_virtual, activate,
  refusal,
}
use tunnelbridge.Server.Gateway.Steps.{stage_ok, id_ok}
use tunnelbridge.Server.Gateway.Steps.Follows.{Follows}

module _ (contains : IpNet → IpAddr → Bool) (hash_token : Text → Text)
    (print_addr : SocketAddr → Text) (columns : Columns) (uuid : UuidBytes)
    (before : Text → Text → Bool) where
  pub acknowledge_ok :
      (s : AppState) (now : ℕ) (id agent_id : Uuid) (ticket : Option Text) (accepted : Bool)
      (error : Option Text)
      → Follows s (acknowledge_connection hash_token s now id agent_id ticket accepted error).1
  unfolding acknowledge_connection Follows id_ok stage_ok
  acknowledge_ok s now id agent_id ticket accepted error j h =
      elim (Option-cases (get s.pending id)) [
        | inl e ↦ ground arith
        | inr (p, e) ↦ ground (
          arith,
          nat_beq_iff id j,
          contains_key_of_get s.pending id p e,
          contains_key-remove s.pending id j,
          contains_key-insert s.acks id j (if accepted then none else some (refusal error)),
        )
      ]

  pub answered_ok :
      (s : AppState) (tunnel : Tunnel) (agent : AgentPeer) (addr : Text) (draw : Draw)
      → (await_connection s draw.connection_id).0 ≡ ok tt
      → Follows s (activate (await_connection s draw.connection_id).1 tunnel agent addr draw)
  unfolding await_connection forget count_failed activate Follows id_ok stage_ok
  answered_ok s tunnel agent addr draw done j h =
      elim (Option-cases (get s.acks draw.connection_id)) [
        | inl e ↦ ground arith
        | inr (none, e) ↦ ground (
          arith,
          nat_beq_iff draw.connection_id j,
          contains_key_of_get s.acks draw.connection_id none e,
          contains_key-remove s.acks draw.connection_id j,
          contains_key-insert s.active draw.connection_id j (record {
            id = draw.connection_id;
            tunnel_id = tunnel.id;
            peer_addr = addr;
            peer_location = draw.location;
            opened_at = draw.utc_now;
            bytes_up = 0;
            bytes_down = 0;
            tunnel_kind = tunnel.kind;
            transport = some agent.transport;
          }),
        )
        | inr (some t, e) ↦ ground arith
      ]

  pub refused_ok :
      (s : AppState) (id : Uuid) (e : OpenError)
      → contains_key s.active id ≡ false
      → (await_connection s id).0 ≡ err e
      → Follows s (await_connection s id).1
  unfolding await_connection forget count_failed Follows id_ok stage_ok
  refused_ok s id e idle failed j h = ground (
    arith,
    nat_beq_iff id j,
    not_contains_key s.acks id,
    contains_key-remove s.acks id j,
    contains_key-remove s.pending id j,
    contains_key-remove s.streams id j,
  )

  pub refused_web_ok :
      (s : AppState) (id : Uuid) (e : OpenError)
      → contains_key s.active id ≡ false
      → (await_virtual s id).0 ≡ err e
      → Follows s (await_virtual s id).1
  unfolding await_virtual forget Follows id_ok stage_ok
  refused_web_ok s id e idle failed j h = ground (
    arith,
    nat_beq_iff id j,
    not_contains_key s.acks id,
    contains_key-remove s.acks id j,
    contains_key-remove s.pending id j,
    contains_key-remove s.streams id j,
  )
