-- ===== src/Server/Gateway/Steps.antt =====
-- The connections of server/src/gateway.rs as a step relation: each step is a piece that a task
-- runs between two waits, and tasks interleave in any order. UDP sessions are not among the steps.
pub mod Follows
pub mod Answers
pub mod Closes
pub mod Invariant
pub mod Cleared
pub mod Bridged
use tunnelbridge.Prelude.{
  ℕ, ◌+◌, ◌≡◌, refl, Bool, true, false, not, ◌&&◌, ◌||◌, Option, none, some, List, [], ◌∷◌, arith,
  ◌==◌, nat_eq, nat_beq_iff, Option-cases, inl, inr, if◌then◌else◌, Bool-cases,
}
use tunnelbridge.Prelude.Text.{Text}
use tunnelbridge.Prelude.Map.{
  get, insert, remove, contains_key, contains_key-insert, contains_key-remove, contains_key-retain,
  contains_key_of_get, not_contains_key,
}
use tunnelbridge.Prelude.Result.{Result, ok, err}
use tunnelbridge.Net.{IpAddr, IpNet, SocketAddr}
use tunnelbridge.Protocol.{Uuid, DateTime, Tunnel}
use tunnelbridge.Protocol.Frame.{UuidBytes, decode_carrier_frame}
use tunnelbridge.Server.State.{AppState, AgentPeer, count_rejected, count_failed}
use tunnelbridge.Server.Tunnels.Rows.{Columns}
use tunnelbridge.Server.Tunnels.Source.{source_allowed}
use tunnelbridge.Server.Cleanup.{cleanup}
use tunnelbridge.Server.Gateway.Connection.{
  OpenError, Draw, register, forget, send_control, ask_agent, accept_connection, accept_virtual,
  acknowledge_connection, await_connection, await_virtual, activate, close_connection,
  close_virtual, route_carrier_frame, refusal,
}

-- Whether a connection may have these entries: in at most one of `pending`, `acks` and `active`,
-- and in `streams` if it is in any of them.
pub stage_ok : Bool → Bool → Bool → Bool → Bool
stage_ok pending acked active stream =
    (not (pending || (acked || active)) || stream)
    && (not (pending && acked) && (not (pending && active) && not (acked && active)))

unfoldable pub id_ok : AppState → Uuid → Bool
unfolding stage_ok
id_ok s id =
    stage_ok (contains_key s.pending id) (contains_key s.acks id) (contains_key s.active id)
      (contains_key s.streams id)

unfoldable pub IsConsistent : AppState → Type 0
IsConsistent s = (id : Uuid) → id_ok s id ≡ true

module _ (contains : IpNet → IpAddr → Bool) (hash_token : Text → Text)
    (print_addr : SocketAddr → Text) (columns : Columns) (uuid : UuidBytes)
    (before : Text → Text → Bool) where
  -- One step. A new connection has a fresh identifier, as `Uuid::new_v4` gives; its task waits
  -- while it is not active, and closes it once it is. Pieces of other tasks leave the four maps.
  pub data Step : AppState → AppState → Type 0 where
    accept :
        {s : AppState} (tunnel : Tunnel) (peer : SocketAddr) (draw : Draw)
        → contains_key s.streams draw.connection_id ≡ false
        → Step s (accept_connection contains hash_token print_addr s tunnel peer draw).1
    accept_web :
        {s : AppState} (tunnel : Tunnel) (peer : SocketAddr) (draw : Draw)
        → contains_key s.streams draw.connection_id ≡ false
        → Step s (accept_virtual contains hash_token print_addr s tunnel peer draw).1
    acknowledge :
        {s : AppState} (now : ℕ) (id agent_id : Uuid) (ticket : Option Text) (accepted : Bool)
        (error : Option Text)
        → Step s (acknowledge_connection hash_token s now id agent_id ticket accepted error).1
    answered :
        {s : AppState} (tunnel : Tunnel) (agent : AgentPeer) (addr : Text) (draw : Draw)
        → (await_connection s draw.connection_id).0 ≡ ok tt
        → Step s (activate (await_connection s draw.connection_id).1 tunnel agent addr draw)
    refused :
        {s : AppState} (id : Uuid) (e : OpenError)
        → contains_key s.active id ≡ false
        → (await_connection s id).0 ≡ err e
        → Step s (await_connection s id).1
    refused_web :
        {s : AppState} (id : Uuid) (e : OpenError)
        → contains_key s.active id ≡ false
        → (await_virtual s id).0 ≡ err e
        → Step s (await_virtual s id).1
    close :
        {s : AppState} (id : Uuid) (closed_at : DateTime)
        → contains_key s.active id ≡ true
        → Step s (close_connection columns s id closed_at)
    close_web :
        {s : AppState} (id : Uuid) → contains_key s.active id ≡ true → Step s (close_virtual s id)
    frame : {s : AppState} (bytes : List ℕ) → Step s (route_carrier_frame uuid s bytes)
    expire : {s : AppState} (now : ℕ) (cutoff : Text) → Step s (cleanup before s now cutoff)
    elsewhere :
        {s s' : AppState}
        → s'.pending ≡ s.pending
        → s'.acks ≡ s.acks
        → s'.active ≡ s.active
        → s'.streams ≡ s.streams
        → Step s s'

  pub data Reach : AppState → AppState → Type 0 where
    stay : {s : AppState} → Reach s s
    step_after : {s s' s'' : AppState} → Reach s s' → Step s' s'' → Reach s s''
