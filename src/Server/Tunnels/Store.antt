-- ===== src/Server/Tunnels/Store.antt =====
-- server/src/tunnels.rs: the operations on the table. The time and the new identifier are
-- arguments; an operation returns the database that it leaves.
pub mod Ruled
pub mod Laws
pub mod Update
pub mod Lookup
pub mod Enabled
use Prim.Native.String.{String}
use tunnelbridge.Prelude.{ℕ, Bool, false, not, Option, none, some, ◌==◌, nat_eq}
use tunnelbridge.Prelude.Text.{Text, text_eq, trim}
use tunnelbridge.Prelude.Result.{Result, ok, err, ◌>>=◌, ◌>>◌, ensure, ok_or}
use tunnelbridge.Net.{IpAddr}
use tunnelbridge.Protocol.{
  Uuid, DateTime, Tunnel, TunnelKind, kind_eq, TunnelStatus, CreateTunnelRequest,
  UpdateTunnelRequest,
}
use tunnelbridge.Server.Error.{AppError, not_found, conflict, internal}
use tunnelbridge.Server.Config.{Config}
use tunnelbridge.Server.Db.{
  Db, DbError, unique_violation, TunnelRow, insert_tunnel, select_tunnel, update_tunnel,
  delete_tunnel,
}
use tunnelbridge.Server.Tunnels.Rows.{
  Columns, scheme_str, access_mode_str, tunnel_to_row, row_to_tunnel,
}
use tunnelbridge.Server.Tunnels.Ports.{allocate_port}
use tunnelbridge.Server.Tunnels.Edit.{edit}
use tunnelbridge.Server.Tunnels.Validate.{
  validate_create, validate_remote_port, normalize_hostname, requested_hostname,
}

-- What a failed statement is reported as.
pub db_error : String → DbError → AppError
db_error message unique_violation = conflict message
db_error message _ = internal

-- A statement's outcome as the result of the operation around it.
unfoldable pub finish : String → Tunnel → Result DbError Db → Result AppError (Tunnel × Db)
unfolding db_error
finish message tunnel (ok db) = ok (tunnel, db)
finish message tunnel (err e) = err (db_error message e)

-- The requested port, or one that is free.
pub given_port : Config → Db → Option ℕ → TunnelKind → Result AppError ℕ
given_port config db (some port) kind = validate_remote_port config port >> ok port
given_port config db none kind = allocate_port config db kind

-- The public port of a new tunnel.
pub choose_port : Config → Db → CreateTunnelRequest → TunnelKind → Result AppError (Option ℕ)
unfolding given_port
choose_port config db request TunnelKind.web = ok none
choose_port config db request kind =
    given_port config db request.remote_port kind >>= λ port. ok (some port)

-- The hostname of a new tunnel.
pub choose_hostname : Config → CreateTunnelRequest → TunnelKind → Result AppError (Option Text)
choose_hostname config request TunnelKind.web =
    normalize_hostname config (requested_hostname request) >>= λ h. ok (some h)
choose_hostname config request _ = ok none

unfoldable pub new_tunnel :
    Uuid → DateTime → Uuid → CreateTunnelRequest → Option ℕ → Option Text → Tunnel
new_tunnel id now agent_id request remote_port hostname = record {
  id = id;
  agent_id = agent_id;
  name = trim request.name;
  local_host = trim request.local_host;
  local_port = request.local_port;
  kind = request.kind;
  local_scheme = request.local_scheme;
  remote_port = remote_port;
  hostname = hostname;
  access_mode = request.access_mode;
  allowed_cidrs = request.allowed_cidrs;
  enabled = request.enabled;
  status = TunnelStatus.stopped;
  created_at = now;
  updated_at = now;
}

-- `owner.is_some_and(|owner| owner != tunnel.agent_id)`
unfoldable pub foreign_owner : Option Uuid → Tunnel → Bool
foreign_owner none t = false
foreign_owner (some owner) t = not (owner == t.agent_id)

abbrev pub check_owner : Option Uuid → Tunnel → Result AppError (Unit {0})
check_owner owner t = ensure (not (foreign_owner owner t)) not_found

module _ (columns : Columns) where
  unfoldable pub get : Db → Uuid → Result AppError Tunnel
  get db id = do
    row ← ok_or (select_tunnel db (columns.uuid_text id)) not_found
    row_to_tunnel columns row

  -- The columns that the UPDATE statement sets.
  unfoldable pub set_columns : Tunnel → TunnelRow → TunnelRow
  set_columns t row = record row {
    name = t.name;
    local_host = t.local_host;
    local_port = t.local_port;
    local_scheme = scheme_str t.local_scheme;
    remote_port = t.remote_port;
    hostname = t.hostname;
    access_mode = access_mode_str t.access_mode;
    allowed_cidrs = columns.cidrs_text t.allowed_cidrs;
    enabled = t.enabled;
    updated_at = columns.rfc3339 t.updated_at;
  }

  unfoldable pub delete : Db → Uuid → Option Uuid → Result AppError Db
  unfolding foreign_owner
  delete db id owner = do
    tunnel ← get db id
    check_owner owner tunnel
    ok (delete_tunnel db (columns.uuid_text id))

module _ (columns : Columns) (parse_ip : Text → Option IpAddr) where
  unfoldable pub create :
      Config → Db → Uuid → DateTime → Uuid → CreateTunnelRequest → Result AppError (Tunnel × Db)
  unfolding choose_port choose_hostname
  create config db id now agent_id request = do
    validate_create parse_ip config request
    remote_port ← choose_port config db request request.kind
    hostname ← choose_hostname config request request.kind
    let tunnel = new_tunnel id now agent_id request remote_port hostname
    finish "public endpoint is already allocated" tunnel
        (insert_tunnel db (tunnel_to_row columns tunnel))

  unfoldable pub update :
      Config
      → Db
      → Uuid
      → DateTime
      → Option Uuid
      → UpdateTunnelRequest
      → Result AppError (Tunnel × Db)
  unfolding foreign_owner
  update config db id now owner request = do
    tunnel ← get columns db id
    check_owner owner tunnel
    tunnel ← edit parse_ip config now request tunnel
    finish "remote port is already allocated" tunnel
        (update_tunnel db (columns.uuid_text tunnel.id) (set_columns columns tunnel))
