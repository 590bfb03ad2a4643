-- ===== src/Agent/Commands/Configure.antt =====
-- desktop/src-tauri/src/commands.rs: `configure_server` and `set_transport_mode`. What they start with
-- `restart_agent` is counted.
pub mod Laws
use tunnelbridge.Prelude.{ℕ, ◌+◌, Bool, not, ◌||◌, Option, none, some, length, ltb, ◌++◌}
use tunnelbridge.Prelude.Text.{Text, codes, trim, utf8_len, is_empty}
use tunnelbridge.Prelude.Result.{Result, ok, err, ◌>>=◌, ◌>>◌, ensure, ok_or}
use tunnelbridge.Net.{IpAddr}
use tunnelbridge.Protocol.{Uuid, DateTime, TransportMode}
use tunnelbridge.Agent.Runtime.{AgentConfig}
use tunnelbridge.Agent.Config.{
  UrlCrate, UrlError, App, normalize_server_url, save_config, save_token, load_token,
  save_transport_fingerprint, save_transport_certificate,
}
use tunnelbridge.Agent.Commands.{
  AgentEnrollment, Http, get_enrollment, as_enrollment, request, log_info,
}

-- `.map_err(display_error)?`
unfoldable pub shown : {E A : Type 0} → (E → Text) → Result E A → Result Text A
shown text (ok a) = ok a
shown text (err e) = err (text e)

pub record Input : Type 0 where
  pub server_url : Text
  pub token : Text
  pub name : Text

unfoldable pub checked_input :
    UrlCrate → (Text → Option IpAddr) → (UrlError → Text) → Text → Text → Text → Result Text Input
unfolding shown
checked_input crate parse_ip url_text server_url token device_name = do
  url ← shown url_text (normalize_server_url crate parse_ip server_url)
  ensure (not (ltb (utf8_len (trim token)) 20)) (codes "设备令牌格式无效")
  ensure (not (is_empty (trim device_name) || ltb 80 (length (trim device_name))))
      (codes "设备名称需要包含 1 到 80 个字符")
  ok (record { server_url = url; token = trim token; name = trim device_name })

-- The installation keeps its identifier and its choice of a transport.
unfoldable pub installation_of : Option AgentConfig → Uuid → Uuid
installation_of none new_id = new_id
installation_of (some c) new_id = c.installation_id

unfoldable pub mode_of : Option AgentConfig → TransportMode
mode_of none = TransportMode.auto
mode_of (some c) = c.transport_mode

unfoldable pub new_config : App → Uuid → Input → AgentEnrollment → AgentConfig
unfolding installation_of mode_of
new_config app new_id input enrollment = record {
  server_url = input.server_url;
  device_name = input.name;
  installation_id = installation_of app.runtime.config new_id;
  transport_mode = mode_of app.runtime.config;
  quic_port = enrollment.quic_port;
  kcp_port = enrollment.kcp_port;
}

unfoldable pub restart_agent : App → App
restart_agent app = record app { restarts = app.restarts + 1 }

unfoldable pub set_config : App → AgentConfig → App
set_config app config = record app { runtime = record app.runtime { config = some config } }

module _ (uuid_text : Uuid → Text) where
  -- What an enrollment leaves.
  unfoldable pub keep_enrollment : App → DateTime → AgentConfig → Text → AgentEnrollment → App
  unfolding set_config restart_agent
  keep_enrollment app now config token enrollment =
      let id = config.installation_id in
      let saved =
        save_config
          (save_transport_certificate uuid_text
            (save_transport_fingerprint uuid_text (save_token uuid_text app id token) id
              enrollment.transport_fingerprint)
            id enrollment.transport_certificate_der)
          config in
      let known = set_config saved config in
      let listed = record known {
        runtime = record known.runtime { tunnels = enrollment.tunnels };
      } in
      restart_agent (log_info listed now (codes "服务器配置已验证并保存"))

  unfoldable pub configure_server :
      {W : Type 0}
      → Http W
      → UrlCrate
      → (Text → Option IpAddr)
      → (UrlError → Text)
      → App
      → W
      → DateTime
      → Uuid
      → Text
      → Text
      → Text
      → Result Text (Unit {0}) × App × W
  unfolding checked_input new_config keep_enrollment
  configure_server http crate parse_ip url_text app w now new_id server_url token device_name =
      elim (checked_input crate parse_ip url_text server_url token device_name) [
        | err e ↦ (err e, app, w)
        | ok input ↦
            let (answer, w') =
              request http as_enrollment w input.server_url input.token get_enrollment in
            elim answer [
              | err e ↦ (err e, app, w')
              | ok enrollment ↦ (
                ok tt,
                keep_enrollment app now (new_config app new_id input enrollment) input.token
                    enrollment,
                w',
              )
            ]
      ]

pub set_transport_mode :
    (TransportMode → Text) → App → DateTime → TransportMode → Result Text (Unit {0}) × App
unfolding set_config restart_agent
set_transport_mode mode_text app now mode = elim app.runtime.config [
  | none ↦ (err (codes "尚未配置服务器"), app)
  | some old ↦
      let config = record old { transport_mode = mode } in
      (
        ok tt,
        restart_agent (
            log_info (set_config (save_config app config) config) now
              (codes "承载策略已切换为 " ++ mode_text mode)),
      )
]
