-- ===== src/Server/Api/Handlers.antt =====
-- server/src/api.rs: the handlers that create, change and delete tunnels, for the administrator and for
-- a device, and `agent_enrollment` without the certificate. The time, the new identifier and the new listener are
-- arguments.
pub mod Settled
pub mod Created
use tunnelbridge.Prelude.{ℕ, Bool, true, false, Option, none, some, List, [], ◌∷◌, ◌++◌}
use tunnelbridge.Prelude.Text.{Text, codes}
use tunnelbridge.Prelude.Result.{Result, ok, err, ◌>>=◌}
use tunnelbridge.Net.{IpAddr}
use tunnelbridge.Protocol.{
  Uuid, DateTime, Tunnel, CarrierCapabilities, CreateTunnelRequest, UpdateTunnelRequest,
}
use tunnelbridge.Server.Error.{AppError}
use tunnelbridge.Server.Db.{Db}
use tunnelbridge.Server.State.{AppState}
use tunnelbridge.Server.Headers.{Headers, Method, patch, delete}
use tunnelbridge.Server.Auth.{require_admin, require_device, DeviceIdentity}
use tunnelbridge.Server.Carrier.{sync_agent, server_capabilities}
use tunnelbridge.Server.Devices.{audit}
use tunnelbridge.Server.Listeners.{NewListener, run_task, stop_listener, reconcile_listener}
use tunnelbridge.Server.Tunnels.Rows.{Columns}
use tunnelbridge.Server.Tunnels.Queries.{list_for_agent}
use tunnelbridge.Server.Tunnels.Store
use tunnelbridge.Server.Tunnels.Store.{create, update}
use tunnelbridge.Server.Api.Status.{decorate_tunnel, decorate_tunnels}

pub record Enrollment : Type 0 where
  pub tunnels : List Tunnel
  pub quic_port : ℕ
  pub kcp_port : ℕ
  pub capabilities : CarrierCapabilities

module _ (columns : Columns) where
  -- What follows a change of a tunnel: its listener, the agent's copy, and the audit row. The task of a
  -- new listener may run at each wait of what follows, which neither reads nor writes what it does.
  unfoldable pub settle :
      AppState → Db → Tunnel → Uuid → NewListener → Text → Text → DateTime → AppState
  unfolding reconcile_listener run_task audit
  settle s db tunnel agent_id listener action detail now =
      audit columns
        (sync_agent columns
          (run_task (reconcile_listener (record s { db = db }) tunnel listener.token) tunnel
            listener.bound)
          agent_id)
        action (columns.uuid_text tunnel.id) detail now

  -- The same after a deletion.
  unfoldable pub settle_deleted : AppState → Db → Uuid → Uuid → Text → DateTime → AppState
  unfolding stop_listener audit
  settle_deleted s db id agent_id detail now =
      audit columns (sync_agent columns (stop_listener (record s { db = db }) id) agent_id)
        (codes "tunnel.delete") (columns.uuid_text id) detail now

  module _ (hash_token : Text → Text) where
    -- The requests of a device: `require_device(…)?`, and the rest.
    unfoldable pub as_device {ℓ} :
        {A : Type ℓ}
        → AppState
        → Headers
        → (DeviceIdentity → Result AppError A × AppState)
        → Result AppError A × AppState
    as_device s headers rest = elim (require_device columns hash_token s.db headers) [
      | err e ↦ (err e, s)
      | ok agent ↦ rest agent
    ]

    unfoldable pub agent_list_tunnels :
        AppState → Headers → Result AppError (List Tunnel) × AppState
    unfolding as_device
    agent_list_tunnels s headers =
        as_device s headers
          (λ agent. (list_for_agent columns s.db agent.id >>= λ ts. ok (decorate_tunnels s ts), s))

    pub agent_enrollment : AppState → Headers → Result AppError Enrollment × AppState
    unfolding as_device
    agent_enrollment s headers = as_device s headers (λ agent. (
      list_for_agent columns s.db agent.id >>= λ ts. ok (record {
        tunnels = decorate_tunnels s ts;
        quic_port = s.config.quic_port;
        kcp_port = s.config.kcp_port;
        capabilities = server_capabilities;
      }),
      s,
    ))

    unfoldable pub agent_delete_tunnel :
        AppState → Headers → Uuid → DateTime → Result AppError (Unit {0}) × AppState
    unfolding as_device settle_deleted
    agent_delete_tunnel s headers id now = as_device s headers (λ agent.
        elim (Store.delete columns s.db id (some agent.id)) [
          | err e ↦ (err e, s)
          | ok db ↦ (
            ok tt,
            settle_deleted s db id agent.id (codes "deleted by device " ++ agent.name) now,
          )
        ])

    module _ (parse_ip : Text → Option IpAddr) where
      unfoldable pub agent_create_tunnel :
          AppState
          → Headers
          → CreateTunnelRequest
          → Uuid
          → NewListener
          → DateTime
          → Result AppError Tunnel × AppState
      unfolding as_device settle decorate_tunnel
      agent_create_tunnel s headers request id listener now = as_device s headers (λ agent.
          elim (create columns parse_ip s.config s.db id now agent.id request) [
            | err e ↦ (err e, s)
            | ok (tunnel, db) ↦
                let s' =
                  settle s db tunnel agent.id listener (codes "tunnel.create")
                    (codes "created by device " ++ agent.name) now in
                (ok (decorate_tunnel s' tunnel), s')
          ])

      unfoldable pub agent_update_tunnel :
          AppState
          → Headers
          → Uuid
          → UpdateTunnelRequest
          → NewListener
          → DateTime
          → Result AppError Tunnel × AppState
      unfolding as_device settle decorate_tunnel
      agent_update_tunnel s headers id request listener now = as_device s headers (λ agent.
          elim (update columns parse_ip s.config s.db id now (some agent.id) request) [
            | err e ↦ (err e, s)
            | ok (tunnel, db) ↦
                let s' =
                  settle s db tunnel agent.id listener (codes "tunnel.update")
                    (codes "updated by device " ++ agent.name) now in
                (ok (decorate_tunnel s' tunnel), s')
          ])

  module _ (uri_authority : Text → Option Text) where
    unfoldable pub admin_update_tunnel :
        (Text → Option IpAddr)
        → AppState
        → ℕ
        → Headers
        → Uuid
        → UpdateTunnelRequest
        → NewListener
        → DateTime
        → Result AppError Tunnel × AppState
    unfolding settle decorate_tunnel
    admin_update_tunnel parse_ip s instant headers id request listener now =
        let (who, s') = require_admin uri_authority s instant headers patch in
        elim who [
          | err e ↦ (err e, s')
          | ok (username, csrf) ↦
              elim (update columns parse_ip s'.config s'.db id now none request) [
                | err e ↦ (err e, s')
                | ok (tunnel, db) ↦
                    let s'' =
                      settle s' db tunnel tunnel.agent_id listener (codes "tunnel.update")
                        (codes "updated by " ++ username) now in
                    (ok (decorate_tunnel s'' tunnel), s'')
              ]
        ]

    unfoldable pub admin_delete_tunnel :
        AppState → ℕ → Headers → Uuid → DateTime → Result AppError (Unit {0}) × AppState
    unfolding settle_deleted
    admin_delete_tunnel s instant headers id now =
        let (who, s') = require_admin uri_authority s instant headers delete in
        elim who [
          | err e ↦ (err e, s')
          | ok (username, csrf) ↦ elim (Store.get columns s'.db id) [
            | err e ↦ (err e, s')
            | ok tunnel ↦ elim (Store.delete columns s'.db id none) [
              | err e ↦ (err e, s')
              | ok db ↦ (
                ok tt,
                settle_deleted s' db id tunnel.agent_id (codes "deleted by " ++ username) now,
              )
            ]
          ]
        ]
