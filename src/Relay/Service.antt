-- ===== src/Relay/Service.antt =====
-- The requests of desktop/src-tauri/src/commands.rs at the handlers of server/src/api.rs, by the routes of
-- `router`. What JSON makes of a body at one end is read back at the other; the certificate and its
-- fingerprint, and the text of a message, are parameters. The world counts the requests, which gives
-- new identifiers and times.
pub mod Laws
pub mod Kept
use tunnelbridge.Prelude.{ℕ, ◌+◌, Bool, Option, none, some, List, [], ◌∷◌, ◌++◌}
use tunnelbridge.Prelude.Text.{Text, codes}
use tunnelbridge.Prelude.Result.{Result, ok, err}
use tunnelbridge.Net.{IpAddr}
use tunnelbridge.Protocol.{Uuid, DateTime, Tunnel}
use tunnelbridge.Server.Error.{AppError, Message, into_response}
use tunnelbridge.Server.State.{AppState}
use tunnelbridge.Server.Headers.{Headers}
use tunnelbridge.Server.Listeners.{NewListener}
use tunnelbridge.Server.Tunnels.Rows.{Columns}
use tunnelbridge.Server.Api.Handlers.{
  agent_list_tunnels, agent_create_tunnel, agent_update_tunnel, agent_delete_tunnel,
  agent_enrollment, Enrollment,
}
use tunnelbridge.Agent.Commands.{
  AgentEnrollment, Call, get_enrollment, get_tunnels, post_tunnel, patch_tunnel, delete_tunnel_at,
  Payload, enrollment_payload, tunnels_payload, tunnel_payload, error_payload, unreadable, Response,
  Http,
}

pub record World : Type 0 where
  pub state : AppState
  pub served : ℕ

-- `bearer_auth(token)`
unfoldable pub bearer : Text → Headers
bearer token = (codes "authorization", some (codes "Bearer " ++ token)) ∷ []

-- What the server draws and reads for a request.
pub record Draws : Type 0 where
  pub id_of : ℕ → Uuid
  pub listener_of : ℕ → NewListener
  pub now_of : ℕ → DateTime

module _ (text_of : Message → Text) where
  -- A handler's answer: its value with its status, or the body of its error.
  unfoldable pub answer : {A : Type 0} → ℕ → (A → Payload) → Result AppError A → Response
  answer status body (ok a) = record { status = status; payload = body a }
  answer status body (err e) = record {
    status = (into_response e).status;
    payload = error_payload (text_of (into_response e).message);
  }

  module _ (columns : Columns) (hash_token : Text → Text) (parse_ip : Text → Option IpAddr)
      (fingerprint certificate : Text) (draws : Draws) where
    unfoldable pub enrolled : Enrollment → AgentEnrollment
    enrolled e = record {
      tunnels = e.tunnels;
      transport_fingerprint = fingerprint;
      transport_certificate_der = certificate;
      quic_port = e.quic_port;
      kcp_port = e.kcp_port;
    }

    -- The response, and the state that the handler leaves.
    unfoldable pub route : World → Headers → Call → Response × AppState
    unfolding answer enrolled
    route w headers get_enrollment =
        let (r, s) = agent_enrollment columns hash_token w.state headers in
        (answer 200 (λ e. enrollment_payload (enrolled e)) r, s)
    route w headers get_tunnels =
        let (r, s) = agent_list_tunnels columns hash_token w.state headers in
        (answer 200 tunnels_payload r, s)
    route w headers (post_tunnel request) =
        let (r, s) =
          agent_create_tunnel columns hash_token parse_ip w.state headers request
            (draws.id_of w.served) (draws.listener_of w.served) (draws.now_of w.served) in
        (answer 201 tunnel_payload r, s)
    route w headers (patch_tunnel id request) =
        let (r, s) =
          agent_update_tunnel columns hash_token parse_ip w.state headers id request
            (draws.listener_of w.served) (draws.now_of w.served) in
        (answer 200 tunnel_payload r, s)
    route w headers (delete_tunnel_at id) =
        let (r, s) =
          agent_delete_tunnel columns hash_token w.state headers id (draws.now_of w.served) in
        (answer 204 (λ done. unreadable) r, s)

    unfoldable pub serve : World → Text → Text → Call → Result Text Response × World
    unfolding route bearer
    serve w server token call =
        let (r, s) = route w (bearer token) call in
        (ok r, record { state = s; served = w.served + 1 })

    unfoldable pub http : Text → (ℕ → Text) → Http World
    unfolding serve
    http decode_error print_status = record {
      serve = serve;
      decode_error = decode_error;
      print_status = print_status;
    }
