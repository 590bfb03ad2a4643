-- ===== src/Server/Api/Tables/Runs.antt =====
-- Runs of the server, as far as the tables of tunnels and devices go: the handlers of
-- server/src/api.rs that write to them, in any order and with any requests.
use tunnelbridge.Prelude.{ℕ, ◌<◌, ◌^◌, Option}
use tunnelbridge.Prelude.Text.{Text}
use tunnelbridge.Net.{IpAddr}
use tunnelbridge.Protocol.{Uuid, DateTime, CreateTunnelRequest, UpdateTunnelRequest}
use tunnelbridge.Server.Config.{Config}
use tunnelbridge.Server.Db.{Db}
use tunnelbridge.Server.Tunnels.Rows.RoundTrip.{IsU16}
use tunnelbridge.Server.State.{AppState}
use tunnelbridge.Server.Headers.{Headers}
use tunnelbridge.Server.Listeners.{NewListener}
use tunnelbridge.Server.Devices.{revoke_device, delete_device_permanently}
use tunnelbridge.Server.Tunnels.Rows.{Columns}
use tunnelbridge.Server.Api.Status.{create_device}
use tunnelbridge.Server.Api.Handlers.{
  agent_create_tunnel, agent_update_tunnel, agent_delete_tunnel, admin_update_tunnel,
  admin_delete_tunnel,
}
use tunnelbridge.Server.Api.Tables.{IsKept}
use tunnelbridge.Server.Api.Tables.Agent.{agent_create-On, agent_update-On, agent_delete-On}
use tunnelbridge.Server.Api.Tables.Admin.{
  admin_update-On, admin_delete-On, revoke_device-On, delete_device-On, create_device-On,
}

module _ (columns : Columns) (hash_token : Text → Text) (parse_ip : Text → Option IpAddr)
    (uri_authority : Text → Option Text) where
  -- A request, with the draws and times that its handler takes, and the state that it leaves. Serde reads
  -- the port of a request as a 16-bit number.
  pub data Request (s : AppState) : AppState → Type 0 where
    create_by_agent :
        (headers : Headers) (request : CreateTunnelRequest) (id : Uuid) (listener : NewListener)
        (now : DateTime)
        → request.local_port < 2 ^ 16
        → Request s
            (agent_create_tunnel columns hash_token parse_ip s headers request id listener now).1
    update_by_agent :
        (headers : Headers) (id : Uuid) (request : UpdateTunnelRequest) (listener : NewListener)
        (now : DateTime)
        → IsU16 request.local_port
        → Request s
            (agent_update_tunnel columns hash_token parse_ip s headers id request listener now).1
    delete_by_agent :
        (headers : Headers) (id : Uuid) (now : DateTime)
        → Request s (agent_delete_tunnel columns hash_token s headers id now).1
    update_by_admin :
        (instant : ℕ) (headers : Headers) (id : Uuid) (request : UpdateTunnelRequest)
        (listener : NewListener) (now : DateTime)
        → IsU16 request.local_port
        → Request s
            (admin_update_tunnel columns uri_authority parse_ip s instant headers id request
              listener now).1
    delete_by_admin :
        (instant : ℕ) (headers : Headers) (id : Uuid) (now : DateTime)
        → Request s (admin_delete_tunnel columns uri_authority s instant headers id now).1
    create_device_by_admin :
        (instant : ℕ) (headers : Headers) (name : Text) (id : Uuid) (token : Text) (now : DateTime)
        → Request s
            (create_device columns uri_authority hash_token s instant headers name id token now).1
    revoke_by_admin :
        (instant : ℕ) (headers : Headers) (id : Uuid) (now : DateTime)
        → Request s (revoke_device columns uri_authority s instant headers id now).1
    delete_device_by_admin :
        (instant : ℕ) (headers : Headers) (id : Uuid) (now : DateTime)
        → Request s (delete_device_permanently columns uri_authority s instant headers id now).1

  pub data Run (s : AppState) : AppState → Type 0 where
    start : Run s s
    after : {s' s'' : AppState} → Run s s' → Request s' s'' → Run s s''

  module _ (P : Config → Db → Type 0) (kept : IsKept columns parse_ip P) where
    Request-On : {s s' : AppState} → Request s s' → P s.config s.db → P s'.config s'.db
    Request-On {s} (create_by_agent headers request id listener now port) p =
        agent_create-On columns parse_ip P kept hash_token s headers p request id listener now port
    Request-On {s} (update_by_agent headers id request listener now port) p =
        agent_update-On columns parse_ip P kept hash_token s headers p id request listener now port
    Request-On {s} (delete_by_agent headers id now) p =
        agent_delete-On columns parse_ip P kept hash_token s headers p id now
    Request-On {s} (update_by_admin instant headers id request listener now port) p =
        admin_update-On columns parse_ip P kept uri_authority s instant headers p id request
          listener now port
    Request-On {s} (delete_by_admin instant headers id now) p =
        admin_delete-On columns parse_ip P kept uri_authority s instant headers p id now
    Request-On {s} (create_device_by_admin instant headers name id token now) p =
        create_device-On columns parse_ip P kept uri_authority s instant headers p hash_token name
          id token now
    Request-On {s} (revoke_by_admin instant headers id now) p =
        revoke_device-On columns parse_ip P kept uri_authority s instant headers p id now
    Request-On {s} (delete_device_by_admin instant headers id now) p =
        delete_device-On columns parse_ip P kept uri_authority s instant headers p id now

    -- What every statement keeps, every run keeps.
    pub Run-On : {s s' : AppState} → Run s s' → P s.config s.db → P s'.config s'.db
    Run-On start p = p
    Run-On (after run request) p = Request-On request (Run-On run p)
