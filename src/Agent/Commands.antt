-- ===== src/Agent/Commands.antt =====
-- desktop/src-tauri/src/commands.rs. The server stands behind `Http`, which answers a request and changes
-- a world; what the server's JSON holds is a `Payload`. The texts of the libraries' errors and a new
-- identifier are arguments. The commands on autostart and updates only call plugins.
pub mod Configure
pub mod Enabled
use tunnelbridge.Prelude.{
  ℕ, Bool, true, false, not, ◌&&◌, ◌||◌, Option, none, some, List, [], ◌∷◌, ◌++◌, ◌==◌, nat_eq, ltb,
  leb, length, if◌then◌else◌,
}
use tunnelbridge.Prelude.Text.{Text, codes, trim, utf8_len, is_empty}
use tunnelbridge.Prelude.Result.{Result, ok, err, ◌>>=◌, ◌>>◌, ensure, ok_or}
use tunnelbridge.Net.{IpAddr}
use tunnelbridge.Protocol.{
  Uuid, DateTime, Tunnel, TransportMode, CreateTunnelRequest, UpdateTunnelRequest,
}
use tunnelbridge.Agent.Runtime.{RuntimeState, AppSnapshot, AgentConfig, snapshot, log}
use tunnelbridge.Agent.Config.{
  UrlCrate, UrlError, App, normalize_server_url, save_config, save_token, load_token,
  save_transport_fingerprint, save_transport_certificate,
}

-- `AgentEnrollmentResponse`, its capabilities left out.
pub record AgentEnrollment : Type 0 where
  pub tunnels : List Tunnel
  pub transport_fingerprint : Text
  pub transport_certificate_der : Text
  pub quic_port : ℕ
  pub kcp_port : ℕ

-- The methods, paths and bodies of the requests that the commands send.
pub data Call : Type 0 where
  get_enrollment get_tunnels : Call
  post_tunnel : CreateTunnelRequest → Call
  patch_tunnel : Uuid → UpdateTunnelRequest → Call
  delete_tunnel_at : Uuid → Call

-- What a body is read as: `unreadable` where serde refuses it.
pub data Payload : Type 0 where
  enrollment_payload : AgentEnrollment → Payload
  tunnels_payload : List Tunnel → Payload
  tunnel_payload : Tunnel → Payload
  error_payload : (message : Text) → Payload
  unreadable : Payload

pub record Response : Type 0 where
  pub status : ℕ
  pub payload : Payload

-- `builder.send()` with the server's address and the bearer token. `serve` fails with the text of the
-- client's error. `decode_error` is the text of serde's, and `print_status` writes a status.
pub record Http (W : Type 0) : Type 0 where
  pub serve : W → Text → Text → Call → Result Text Response × W
  pub decode_error : Text
  pub print_status : ℕ → Text

unfoldable pub is_success : ℕ → Bool
is_success status = leb 200 status && ltb status 300

-- The readers that `response.json()` picks by its type.
unfoldable pub as_tunnels : Payload → Option (List Tunnel)
as_tunnels (tunnels_payload ts) = some ts
as_tunnels _ = none

unfoldable pub as_tunnel : Payload → Option Tunnel
as_tunnel (tunnel_payload t) = some t
as_tunnel _ = none

unfoldable pub as_enrollment : Payload → Option AgentEnrollment
as_enrollment (enrollment_payload e) = some e
as_enrollment _ = none

unfoldable pub nothing : Payload → Option (Unit {0})
nothing _ = some tt

unfoldable pub show_tunnels : App → List Tunnel → App
show_tunnels app tunnels = record app { runtime = record app.runtime { tunnels = tunnels } }

unfoldable pub log_info : App → DateTime → Text → App
unfolding log
log_info app now message = record app { runtime = log app.runtime now (codes "info") message }

-- `UpdateTunnelRequest { enabled: Some(enabled), ..Default::default() }`
unfoldable pub only_enabled : Bool → UpdateTunnelRequest
only_enabled enabled = record {
  name = none;
  local_host = none;
  local_port = none;
  kind = none;
  local_scheme = none;
  remote_port = none;
  hostname = none;
  access_mode = none;
  allowed_cidrs = none;
  enabled = some enabled;
  allow_lan_target = false;
}

unfoldable pub differs : Bool → Tunnel → Bool
differs enabled t = if t.enabled then not enabled else enabled

module _ {W : Type 0} (http : Http W) where
  unfoldable pub response_error : Response → Text
  response_error r = elim r.payload [
    | error_payload message ↦ message
    | other ↦
        if r.status == 401
        then codes "设备令牌无效或已撤销"
        else (codes "服务器返回 " ++ http.print_status r.status)
  ]

  -- `request`, and with `nothing` as the reader `request_empty`.
  unfoldable pub request :
      {T : Type 0} → (Payload → Option T) → W → Text → Text → Call → Result Text T × W
  unfolding is_success response_error
  request read w server token call =
      let (answer, w') = http.serve w server token call in
      (
        answer >>= λ r.
            if is_success r.status
            then ok_or (read r.payload) http.decode_error
            else err (response_error r),
        w',
      )

  module _ (uuid_text : Uuid → Text) (no_entry : Text) where
    unfoldable pub credentials : App → Result Text (AgentConfig × Text)
    unfolding load_token
    credentials app = do
      config ← ok_or app.runtime.config (codes "尚未配置服务器")
      token ← ok_or (load_token uuid_text app config.installation_id) no_entry
      ok (config, token)

    -- `credentials(…)?` and a request.
    unfoldable pub as_agent :
        {T : Type 0} → (Payload → Option T) → App → W → Call → Result Text T × W
    unfolding credentials request
    as_agent read app w call = elim (credentials app) [
      | err e ↦ (err e, w)
      | ok (config, token) ↦ request read w config.server_url token call
    ]

    unfoldable pub refresh_tunnels : App → W → Result Text (Unit {0}) × App × W
    unfolding as_agent as_tunnels show_tunnels
    refresh_tunnels app w =
        let (answer, w') = as_agent as_tunnels app w get_tunnels in
        elim answer [
          | err e ↦ (err e, app, w')
          | ok tunnels ↦ (ok tt, show_tunnels app tunnels, w')
        ]

    -- What follows a request that has succeeded: the list is read again, and the message is logged.
    then_refresh :
        {T : Type 0} → Option Text → DateTime → App → Result Text T × W → Result Text T × App × W
    unfolding refresh_tunnels log_info
    then_refresh message now app (err e, w) = (err e, app, w)
    then_refresh message now app (ok t, w) =
        let (done, app', w') = refresh_tunnels app w in
        elim done [
          | err e ↦ (err e, app', w')
          | ok _ ↦ (ok t, elim message [ none ↦ app' | some m ↦ log_info app' now m ], w')
        ]

    pub create_tunnel : App → W → DateTime → CreateTunnelRequest → Result Text Tunnel × App × W
    unfolding as_agent as_tunnel then_refresh
    create_tunnel app w now body =
        then_refresh (some (codes "已创建并同步新隧道")) now app
          (as_agent as_tunnel app w (post_tunnel body))

    pub update_tunnel :
        App → W → DateTime → Uuid → UpdateTunnelRequest → Result Text Tunnel × App × W
    unfolding as_agent as_tunnel then_refresh
    update_tunnel app w now id update =
        then_refresh none now app (as_agent as_tunnel app w (patch_tunnel id update))

    pub delete_tunnel : App → W → DateTime → Uuid → Result Text (Unit {0}) × App × W
    unfolding as_agent nothing then_refresh
    delete_tunnel app w now id =
        then_refresh (some (codes "隧道已删除，远程端口已释放")) now app
          (as_agent nothing app w (delete_tunnel_at id))

    -- The loop over the tunnels that were shown at its start.
    unfoldable pub enable_each : App → Bool → W → List Tunnel → Result Text (Unit {0}) × W
    unfolding as_agent as_tunnel only_enabled differs
    enable_each app enabled w [] = (ok tt, w)
    enable_each app enabled w (t ∷ ts) = elim (differs enabled t) [
      | false ↦ enable_each app enabled w ts
      | true ↦
          let (answer, w') = as_agent as_tunnel app w (patch_tunnel t.id (only_enabled enabled)) in
          elim answer [ err e ↦ (err e, w') | ok _ ↦ enable_each app enabled w' ts ]
    ]

    unfoldable pub set_all_enabled : App → W → Bool → Result Text (Unit {0}) × App × W
    unfolding enable_each refresh_tunnels
    set_all_enabled app w enabled =
        let (done, w') = enable_each app enabled w app.runtime.tunnels in
        elim done [ err e ↦ (err e, app, w') | ok _ ↦ refresh_tunnels app w' ]

pub get_snapshot : App → AppSnapshot
get_snapshot app = snapshot app.runtime
