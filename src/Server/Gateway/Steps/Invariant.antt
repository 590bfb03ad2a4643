-- ===== src/Server/Gateway/Steps/Invariant.antt =====
-- The invariant of Gateway/Steps: how the entries of a connection of server/src/gateway.rs stand
-- together in every order of the steps.
use tunnelbridge.Prelude.{Bool, nat_eq}
use tunnelbridge.Prelude.Text.{Text}
use tunnelbridge.Net.{IpAddr, IpNet, SocketAddr}
use tunnelbridge.Protocol.Frame.{UuidBytes}
use tunnelbridge.Server.State.{AppState}
use tunnelbridge.Server.Tunnels.Rows.{Columns}
use tunnelbridge.Server.Gateway.Steps.{
  IsConsistent, Step, Reach, accept, accept_web, acknowledge, answered, refused, refused_web, close,
  close_web, frame, expire, elsewhere, stay, step_after,
}
use tunnelbridge.Server.Gateway.Steps.Follows.{
  Follows, same_maps, stays, accept_connection_ok, accept_virtual_ok,
}
use tunnelbridge.Server.Gateway.Steps.Answers.{
  acknowledge_ok, answered_ok, refused_ok, refused_web_ok,
}
use tunnelbridge.Server.Gateway.Steps.Closes.{close_ok, close_web_ok, frame_ok, expire_ok}

module _ (contains : IpNet → IpAddr → Bool) (hash_token : Text → Text)
    (print_addr : SocketAddr → Text) (columns : Columns) (uuid : UuidBytes)
    (before : Text → Text → Bool) where
  step_ok :
      {s s' : AppState}
      → Step contains hash_token print_addr columns uuid before s s'
      → Follows s s'
  step_ok (accept {s} tunnel peer draw fresh) =
      accept_connection_ok contains hash_token print_addr columns uuid before s tunnel peer draw
        fresh
  step_ok (accept_web {s} tunnel peer draw fresh) =
      accept_virtual_ok contains hash_token print_addr columns uuid before s tunnel peer draw fresh
  step_ok (acknowledge {s} now id agent_id ticket accepted error) =
      acknowledge_ok contains hash_token print_addr columns uuid before s now id agent_id ticket
        accepted error
  step_ok (answered {s} tunnel agent addr draw done) =
      answered_ok contains hash_token print_addr columns uuid before s tunnel agent addr draw done
  step_ok (refused {s} id e idle failed) =
      refused_ok contains hash_token print_addr columns uuid before s id e idle failed
  step_ok (refused_web {s} id e idle failed) =
      refused_web_ok contains hash_token print_addr columns uuid before s id e idle failed
  step_ok (close {s} id closed_at open_still) =
      close_ok contains hash_token print_addr columns uuid before s id closed_at open_still
  step_ok (close_web {s} id open_still) =
      close_web_ok contains hash_token print_addr columns uuid before s id open_still
  step_ok (frame {s} bytes) = frame_ok contains hash_token print_addr columns uuid before s bytes
  step_ok (expire {s} now cutoff) =
      expire_ok contains hash_token print_addr columns uuid before s now cutoff
  step_ok (elsewhere {s} {s'} p a c t) =
      same_maps contains hash_token print_addr columns uuid before s s s' p a c t
        (stays contains hash_token print_addr columns uuid before s)

  -- However the tasks of the gateway interleave, the tables of its TCP and web connections stay
  -- consistent: from a consistent state, every state that steps lead to has each connection in at
  -- most one of `pending`, `acks` and `active`, and with an inbox in `streams` if it is in one of
  -- them. So an active connection has no ticket left to redeem, and its frames find an inbox.
  pub Reach-IsConsistent :
      {s s' : AppState}
      → Reach contains hash_token print_addr columns uuid before s s'
      → IsConsistent s
      → IsConsistent s'
  unfolding IsConsistent Follows
  Reach-IsConsistent stay h id = h id
  Reach-IsConsistent (step_after r step) h id = step_ok step id (Reach-IsConsistent r h id)
