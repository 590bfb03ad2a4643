-- ===== src/Server/Api/Status.antt =====
-- server/src/api.rs: the status of a tunnel that a list shows, the lists and numbers that the console
-- reads, and the requests of the reverse proxy.
use tunnelbridge.Prelude.{
  ℕ, ◌/◌, Bool, false, not, ◌&&◌, ◌||◌, Option, none, some, List, [], ◌∷◌, ◌++◌, map, any, take,
  ltb, min, length, ◌==◌, nat_eq, if◌then◌else◌,
}
use tunnelbridge.Prelude.Text.{Text, text_eq, codes, trim, is_empty}
use tunnelbridge.Prelude.Map.{contains_key}
use tunnelbridge.Prelude.Result.{Result, ok, err, ◌>>=◌, ◌>>◌, ensure, ok_or}
use tunnelbridge.Net.{IpAddr, IpNet, canonical}
use tunnelbridge.Protocol.{
  Uuid, DateTime, Tunnel, TunnelKind, kind_eq, TunnelStatus, ActiveConnection, MetricsSnapshot,
}
use tunnelbridge.Server.Error.{AppError, forbidden, bad_request, internal, literal}
use tunnelbridge.Server.Config.{Config}
use tunnelbridge.Server.Db.{DeviceRow, AuditRow}
use tunnelbridge.Server.State.{AppState, metrics}
use tunnelbridge.Server.Headers.{Headers, get_method, post}
use tunnelbridge.Server.Auth.{require_admin}
use tunnelbridge.Server.Devices.{audit}
use tunnelbridge.Server.Tunnels.Rows.{Columns}
use tunnelbridge.Server.Tunnels.Queries.{list_all, hostname_is_enabled}

unfoldable pub decorate_tunnel : AppState → Tunnel → Tunnel
decorate_tunnel s tunnel = record tunnel {
  status =
      if not tunnel.enabled
      then TunnelStatus.stopped
      else if not (tunnel.kind == TunnelKind.web) && not (contains_key s.listeners tunnel.id)
      then TunnelStatus.error
      else if not (contains_key s.agents tunnel.agent_id)
      then TunnelStatus.agent_offline
      else TunnelStatus.online;
}

unfoldable pub decorate_tunnels : AppState → List Tunnel → List Tunnel
unfolding decorate_tunnel
decorate_tunnels s = map (decorate_tunnel s)

pub record Device : Type 0 where
  pub id : Uuid
  pub name : Text
  pub online : Bool
  pub revoked : Bool
  pub last_seen_at : Option DateTime
  pub created_at : DateTime

pub record DeviceToken : Type 0 where
  pub id : Uuid
  pub name : Text
  pub token : Text
  pub created_at : DateTime

pub record ServerSettings : Type 0 where
  pub port_start : ℕ
  pub port_end : ℕ
  pub ticket_ttl_seconds : ℕ
  pub connect_timeout_seconds : ℕ
  pub idle_timeout_seconds : ℕ
  pub audit_retention_days : ℕ
  pub web_base_domain : Text
  pub quic_port : ℕ
  pub kcp_port : ℕ

-- Durations are in milliseconds, and `as_secs` is their quotient.
pub settings : Config → ServerSettings
settings config = record {
  port_start = config.port_start;
  port_end = config.port_end;
  ticket_ttl_seconds = config.ticket_ttl / 1000;
  connect_timeout_seconds = config.connect_timeout / 1000;
  idle_timeout_seconds = config.idle_timeout / 1000;
  audit_retention_days = config.audit_retention_days;
  web_base_domain = config.web_base_domain;
  quic_port = config.quic_port;
  kcp_port = config.kcp_port;
}

-- `value.clamp(1, 500)`
pub clamp_limit : Option ℕ → ℕ
clamp_limit none = 100
clamp_limit (some n) = if ltb n 1 then 1 else min n 500

module _ (columns : Columns) where
  -- `parse_optional_time`
  parse_optional_time : Option Text → Result AppError (Option DateTime)
  parse_optional_time none = ok none
  parse_optional_time (some t) = ok_or (columns.parse_rfc3339 t) internal >>= λ at. ok (some at)

  device_of : AppState → DeviceRow → Result AppError Device
  unfolding parse_optional_time
  device_of s row = do
    id ← ok_or (columns.parse_uuid row.id) internal
    last_seen_at ← parse_optional_time row.last_seen_at
    created_at ← ok_or (columns.parse_rfc3339 row.created_at) internal
    ok (record {
      id = id;
      name = row.name;
      online = contains_key s.agents id;
      revoked = row.revoked;
      last_seen_at = last_seen_at;
      created_at = created_at;
    })

  -- The rows come in the order of `ORDER BY created_at DESC`, which `sort` gives.
  pub devices : AppState → List DeviceRow → Result AppError (List Device)
  unfolding device_of
  devices s [] = ok []
  devices s (row ∷ rows) = do d ← device_of s row; ds ← devices s rows; ok (d ∷ ds)

  -- The newest entries stand first in the table of the model.
  audit_entries : List AuditRow → Result AppError (List (AuditRow × DateTime))
  audit_entries [] = ok []
  audit_entries (row ∷ rows) = do
    created_at ← ok_or (columns.parse_rfc3339 row.created_at) internal
    entries ← audit_entries rows
    ok ((row, created_at) ∷ entries)

module _ (columns : Columns) (uri_authority : Text → Option Text) where
  -- The handlers that only read: `require_admin(…)?`, and the answer.
  unfoldable pub read_as_admin {ℓ} :
      {A : Type ℓ}
      → (AppState → Result AppError A)
      → AppState
      → ℕ
      → Headers
      → Result AppError A × AppState
  read_as_admin answer s now headers =
      let (who, s') = require_admin uri_authority s now headers get_method in
      elim who [ err e ↦ (err e, s') | ok _ ↦ (answer s', s') ]

  pub admin_list_tunnels : AppState → ℕ → Headers → Result AppError (List Tunnel) × AppState
  unfolding read_as_admin decorate_tunnels
  admin_list_tunnels =
      read_as_admin (λ s. list_all columns s.db >>= λ ts. ok (decorate_tunnels s ts))

  pub list_devices :
      (List DeviceRow → List DeviceRow)
      → AppState
      → ℕ
      → Headers
      → Result AppError (List Device) × AppState
  unfolding read_as_admin devices
  list_devices sort = read_as_admin (λ s. devices columns s (sort s.db.devices))

  pub list_connections : AppState → ℕ → Headers → Result AppError (List ActiveConnection) × AppState
  unfolding read_as_admin
  list_connections = read_as_admin (λ s. ok (map (λ e. e.1) s.active))

  pub list_audit :
      Option ℕ → AppState → ℕ → Headers → Result AppError (List (AuditRow × DateTime)) × AppState
  unfolding read_as_admin audit_entries clamp_limit
  list_audit limit =
      read_as_admin (λ s. audit_entries columns (take (clamp_limit limit) s.db.audit_log))

  pub admin_metrics : AppState → ℕ → Headers → Result AppError MetricsSnapshot × AppState
  unfolding read_as_admin
  admin_metrics = read_as_admin (λ s. ok (metrics s))

  pub admin_settings : AppState → ℕ → Headers → Result AppError ServerSettings × AppState
  unfolding read_as_admin settings
  admin_settings = read_as_admin (λ s. ok (settings s.config))

  unfoldable pub create_device :
      (Text → Text)
      → AppState
      → ℕ
      → Headers
      → Text
      → Uuid
      → Text
      → DateTime
      → Result AppError DeviceToken × AppState
  create_device hash_token s now headers requested id token created_at =
      let (who, s') = require_admin uri_authority s now headers post in
      elim who [
        | err e ↦ (err e, s')
        | ok (username, csrf) ↦
            let name = trim requested in
            if is_empty name || ltb 80 (length name)
            then (err (bad_request (literal "device name must contain 1 to 80 characters")), s')
            else (
              ok (record { id = id; name = name; token = token; created_at = created_at }),
              audit columns
                  (record s' {
                    db = record s'.db {
                      devices =
                          record {
                            id = columns.uuid_text id;
                            name = name;
                            token_hash = hash_token token;
                            revoked = false;
                            last_seen_at = none;
                            created_at = columns.rfc3339 created_at;
                          }
                          ∷ s'.db.devices;
                    };
                  })
                  (codes "device.create") (columns.uuid_text id) (codes "created by " ++ username)
                  created_at,
            )
      ]

module _ (contains : IpNet → IpAddr → Bool) where
  unfoldable pub require_trusted_proxy : AppState → IpAddr → Result AppError (Unit {0})
  unfolding canonical any
  require_trusted_proxy s address =
      ensure (any (λ network. contains network (canonical address)) s.config.trusted_proxy_cidrs)
        forbidden

  pub tls_ask : AppState → IpAddr → Text → Result AppError (Unit {0})
  unfolding require_trusted_proxy
  tls_ask s peer domain =
      require_trusted_proxy s peer >> ensure (hostname_is_enabled s.db domain) forbidden
