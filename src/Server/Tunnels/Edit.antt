-- ===== src/Server/Tunnels/Edit.antt =====
-- server/src/tunnels.rs: what `update` does to a tunnel before it writes it.
pub mod Port
pub mod Laws
pub mod Enabled
use tunnelbridge.Prelude.{ℕ, Bool, Option, none, some, ◌==◌, nat_eq, if◌then◌else◌}
use tunnelbridge.Prelude.Text.{Text, text_eq, trim}
use tunnelbridge.Prelude.Result.{Result, ok, err, ◌>>=◌, ◌>>◌, ensure}
use tunnelbridge.Net.{IpAddr}
use tunnelbridge.Protocol.{DateTime, Tunnel, TunnelKind, kind_eq, UpdateTunnelRequest}
use tunnelbridge.Server.Error.{AppError, bad_request, literal}
use tunnelbridge.Server.Config.{Config}
use tunnelbridge.Server.Tunnels.Validate.{
  validate_local_host, validate_remote_port, validate_tunnel, normalize_hostname,
}

-- The steps of `update`, one for each optional field of the request.
pub or_keep {ℓ} : {A : Type ℓ} → Option A → A → A
or_keep none a = a
or_keep (some b) a = b

pub set_name : Option Text → Tunnel → Tunnel
set_name none t = t
set_name (some name) t = record t { name = trim name }

pub set_local_port : Option ℕ → Tunnel → Result AppError Tunnel
set_local_port none t = ok t
set_local_port (some port) t =
    if port == 0
    then err (bad_request (literal "local port cannot be zero"))
    else ok (record t { local_port = port })

pub set_remote_port : Config → Option ℕ → Tunnel → Result AppError Tunnel
set_remote_port config none t = ok t
set_remote_port config (some port) t =
    if t.kind == TunnelKind.web
    then err (bad_request (literal "web tunnels do not use a remote port"))
    else (validate_remote_port config port >> ok (record t { remote_port = some port }))

pub check_kind : Option TunnelKind → Tunnel → Result AppError (Unit {0})
check_kind none t = ok tt
check_kind (some kind) t =
    ensure (kind == t.kind) (bad_request (literal "tunnel kind cannot be changed after creation"))

pub set_hostname : Config → Option Text → Tunnel → Result AppError Tunnel
set_hostname config none t = ok t
set_hostname config (some hostname) t =
    if t.kind == TunnelKind.web
    then (normalize_hostname config hostname >>= λ h. ok (record t { hostname = some h }))
    else err (bad_request (literal "only web tunnels have hostnames"))

pub set_rest : UpdateTunnelRequest → Tunnel → Tunnel
unfolding or_keep
set_rest request t = record t {
  access_mode = or_keep request.access_mode t.access_mode;
  allowed_cidrs = or_keep request.allowed_cidrs t.allowed_cidrs;
  enabled = or_keep request.enabled t.enabled;
}

module _ (parse_ip : Text → Option IpAddr) where
  pub set_local_host : Option Text → Bool → Tunnel → Result AppError Tunnel
  set_local_host none allow_lan t = ok t
  set_local_host (some host) allow_lan t =
      validate_local_host parse_ip host allow_lan >> ok (record t { local_host = trim host })

  -- The new value of a tunnel, before it is written.
  unfoldable pub edit : Config → DateTime → UpdateTunnelRequest → Tunnel → Result AppError Tunnel
  unfolding set_name set_local_host set_local_port set_remote_port check_kind or_keep set_hostname
      set_rest
  edit config now request tunnel = do
    let tunnel = set_name request.name tunnel
    tunnel ← set_local_host request.local_host request.allow_lan_target tunnel
    tunnel ← set_local_port request.local_port tunnel
    tunnel ← set_remote_port config request.remote_port tunnel
    check_kind request.kind tunnel
    let tunnel = record tunnel { local_scheme = or_keep request.local_scheme tunnel.local_scheme }
    tunnel ← set_hostname config request.hostname tunnel
    let tunnel = set_rest request tunnel
    validate_tunnel tunnel
    ok (record tunnel { updated_at = now })
