-- ===== src/Server/Tunnels/Rows.antt =====
-- server/src/tunnels.rs: a tunnel as a row of the table, and back.
use tunnelbridge.Prelude.{ℕ, ◌%◌, ◌^◌, Bool, Option, none, some, List, ◌≡◌, ◌==◌, if◌then◌else◌}
use tunnelbridge.Prelude.Text.{Text, text_eq, codes}
use tunnelbridge.Prelude.Result.{Result, ok, err, ◌>>=◌, ok_or}
use tunnelbridge.Net.{IpNet}
use tunnelbridge.Protocol.{
  Uuid, DateTime, Tunnel, TunnelKind, LocalScheme, AccessMode, TunnelStatus,
}
use tunnelbridge.Server.Error.{AppError, internal}
use tunnelbridge.Server.Db.{TunnelRow}
use mathlib.Core.Option
pub mod RoundTrip

-- How the crates `uuid`, `serde_json` and `chrono` write a value into a TEXT column and read it.
pub record Columns : Type 0 where
  pub uuid_text : Uuid → Text
  pub parse_uuid : Text → Option Uuid
  pub parse-uuid_text : (id : Uuid) → parse_uuid (uuid_text id) ≡ some id
  pub cidrs_text : List IpNet → Text
  pub parse_cidrs : Text → Option (List IpNet)
  pub parse-cidrs_text : (cidrs : List IpNet) → parse_cidrs (cidrs_text cidrs) ≡ some cidrs
  pub rfc3339 : DateTime → Text
  pub parse_rfc3339 : Text → Option DateTime
  pub parse-rfc3339 : (at : DateTime) → parse_rfc3339 (rfc3339 at) ≡ some at

unfoldable pub access_mode_str : AccessMode → Text
access_mode_str AccessMode.allowlist = codes "allowlist"
access_mode_str AccessMode.public = codes "public"

unfoldable pub kind_str : TunnelKind → Text
kind_str TunnelKind.tcp = codes "tcp"
kind_str TunnelKind.udp = codes "udp"
kind_str TunnelKind.web = codes "web"

unfoldable pub scheme_str : LocalScheme → Text
scheme_str LocalScheme.tcp = codes "tcp"
scheme_str LocalScheme.udp = codes "udp"
scheme_str LocalScheme.http = codes "http"
scheme_str LocalScheme.https = codes "https"

unfoldable pub parse_access_mode : Text → Result AppError AccessMode
parse_access_mode value =
    if value == codes "allowlist"
    then ok AccessMode.allowlist
    else if value == codes "public"
    then ok AccessMode.public
    else err internal

unfoldable pub parse_kind : Text → Result AppError TunnelKind
parse_kind value =
    if value == codes "tcp"
    then ok TunnelKind.tcp
    else if value == codes "udp"
    then ok TunnelKind.udp
    else if value == codes "web"
    then ok TunnelKind.web
    else err internal

unfoldable pub parse_scheme : Text → Result AppError LocalScheme
parse_scheme value =
    if value == codes "tcp"
    then ok LocalScheme.tcp
    else if value == codes "udp"
    then ok LocalScheme.udp
    else if value == codes "http"
    then ok LocalScheme.http
    else if value == codes "https"
    then ok LocalScheme.https
    else err internal

-- `port as u16`.
abbrev pub as_u16 : ℕ → ℕ
as_u16 n = n % 2 ^ 16

module _ (columns : Columns) where
  open columns use {uuid_text, parse_uuid, cidrs_text, parse_cidrs, rfc3339, parse_rfc3339}

  -- The values that `create` binds to the INSERT statement. `status` has no column.
  unfoldable pub tunnel_to_row : Tunnel → TunnelRow
  tunnel_to_row t = record {
    id = uuid_text t.id;
    agent_id = uuid_text t.agent_id;
    name = t.name;
    local_host = t.local_host;
    local_port = t.local_port;
    kind = kind_str t.kind;
    local_scheme = scheme_str t.local_scheme;
    remote_port = t.remote_port;
    hostname = t.hostname;
    access_mode = access_mode_str t.access_mode;
    allowed_cidrs = cidrs_text t.allowed_cidrs;
    enabled = t.enabled;
    created_at = rfc3339 t.created_at;
    updated_at = rfc3339 t.updated_at;
  }

  unfoldable pub row_to_tunnel : TunnelRow → Result AppError Tunnel
  row_to_tunnel row = do
    access_mode ← parse_access_mode row.access_mode
    id ← ok_or (parse_uuid row.id) internal
    agent_id ← ok_or (parse_uuid row.agent_id) internal
    kind ← parse_kind row.kind
    local_scheme ← parse_scheme row.local_scheme
    allowed_cidrs ← ok_or (parse_cidrs row.allowed_cidrs) internal
    created_at ← ok_or (parse_rfc3339 row.created_at) internal
    updated_at ← ok_or (parse_rfc3339 row.updated_at) internal
    ok (record {
      id = id;
      agent_id = agent_id;
      name = row.name;
      local_host = row.local_host;
      local_port = as_u16 row.local_port;
      kind = kind;
      local_scheme = local_scheme;
      remote_port = Option.map as_u16 row.remote_port;
      hostname = row.hostname;
      access_mode = access_mode;
      allowed_cidrs = allowed_cidrs;
      enabled = row.enabled;
      status = if row.enabled then TunnelStatus.starting else TunnelStatus.stopped;
      created_at = created_at;
      updated_at = updated_at;
    })
