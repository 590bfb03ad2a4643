-- ===== src/Server/Api/Tables/Agent.antt =====
-- What a device's handlers of server/src/api.rs keep.
use tunnelbridge.Prelude.{◌<◌, ◌^◌, Option, some, inl, inr}
use tunnelbridge.Prelude.Text.{Text, text_eq}
use tunnelbridge.Prelude.Result.{Result-cases}
use tunnelbridge.Net.{IpAddr}
use tunnelbridge.Protocol.{Uuid, DateTime, CreateTunnelRequest, UpdateTunnelRequest}
use tunnelbridge.Server.Config.{Config}
use tunnelbridge.Server.Db.{Db}
use tunnelbridge.Server.State.{AppState}
use tunnelbridge.Server.Headers.{Headers}
use tunnelbridge.Server.Listeners.{NewListener}
use tunnelbridge.Server.Tunnels.Rows.{Columns}
use tunnelbridge.Server.Tunnels.Store.{create, update, delete}
use tunnelbridge.Server.Tunnels.Rows.RoundTrip.{IsU16}
use tunnelbridge.Server.Api.Handlers.{agent_create_tunnel, agent_update_tunnel, agent_delete_tunnel}
use tunnelbridge.Server.Api.Tables.{
  IsKept, On, as_device-On, settle-On, settle_deleted-On, delete-On,
}

module _ (columns : Columns) (parse_ip : Text → Option IpAddr) (P : Config → Db → Type 0)
    (kept : IsKept columns parse_ip P) where
  module _ (hash_token : Text → Text) (s : AppState) (headers : Headers) (p : P s.config s.db) where
    pub agent_create-On :
        (request : CreateTunnelRequest) (id : Uuid) (listener : NewListener) (now : DateTime)
        → request.local_port < 2 ^ 16
        → On columns parse_ip P kept
            (agent_create_tunnel columns hash_token parse_ip s headers request id listener now).1
    unfolding agent_create_tunnel
    agent_create-On request id listener now port =
        as_device-On columns parse_ip P kept hash_token s headers _
          (λ agent.
            elim (Result-cases (create columns parse_ip s.config s.db id now agent.id request)) [
              | inl ((t, db), e) ↦ rw e (
                  settle-On columns parse_ip P kept s db t agent.id listener _ _ now
                    (kept.after_create s.config s.db db id now agent.id request t port e p))
              | inr (e, failed) ↦ rw failed p
            ])
          p

    pub agent_update-On :
        (id : Uuid) (request : UpdateTunnelRequest) (listener : NewListener) (now : DateTime)
        → IsU16 request.local_port
        → On columns parse_ip P kept
            (agent_update_tunnel columns hash_token parse_ip s headers id request listener now).1
    unfolding agent_update_tunnel
    agent_update-On id request listener now port =
        as_device-On columns parse_ip P kept hash_token s headers _
          (λ agent.
            elim (Result-cases
              (update columns parse_ip s.config s.db id now (some agent.id) request)) [
                | inl ((t, db), e) ↦ rw e (
                    settle-On columns parse_ip P kept s db t agent.id listener _ _ now (
                      kept.after_update s.config s.db db id now (some agent.id) request t port e p))
                | inr (e, failed) ↦ rw failed p
              ])
          p

    pub agent_delete-On :
        (id : Uuid) (now : DateTime)
        → On columns parse_ip P kept (agent_delete_tunnel columns hash_token s headers id now).1
    unfolding agent_delete_tunnel
    agent_delete-On id now =
        as_device-On columns parse_ip P kept hash_token s headers _
          (λ agent. elim (Result-cases (delete columns s.db id (some agent.id))) [
            | inl (db, e) ↦ rw e (
                settle_deleted-On columns parse_ip P kept s db id agent.id _ now
                  (delete-On columns parse_ip P kept s.config s.db db id (some agent.id) e p))
            | inr (e, failed) ↦ rw failed p
          ])
          p
