-- ===== src/Agent/Config.antt =====
-- desktop/src-tauri/src/config.rs: the keychain and the configuration's file as parts of a state, and
-- `normalize_server_url`. The crates `url` and `keyring`, the text of an identifier and the texts of their
-- errors are parameters; writes to the keychain and to the disk are taken to succeed.
use tunnelbridge.Prelude.{ℕ, Bool, true, false, ◌&&◌, ◌||◌, Option, none, some, ◌++◌, ◌==◌}
use tunnelbridge.Prelude.Text.{Text, text_eq, codes, trim, trim_end_matches}
use tunnelbridge.Prelude.Map.{Map, get, insert}
use tunnelbridge.Prelude.Result.{Result, ok, ◌>>=◌, ◌>>◌, ensure, ok_or}
use tunnelbridge.Net.{IpAddr, is_loopback}
use tunnelbridge.Protocol.{Uuid}
use tunnelbridge.Agent.Runtime.{RuntimeState, AgentConfig}

-- The crate `url`: `bare` is the text of a URL without its path, query and fragment.
pub record UrlCrate : Type 1 where
  pub Url : Type 0
  pub parse : Text → Option Url
  pub scheme : Url → Text
  pub host_str : Url → Option Text
  pub bare : Url → Text

pub data UrlError : Type 0 where
  invalid insecure no_host : UrlError

is_loopback_host : (Text → Option IpAddr) → Text → Bool
is_loopback_host parse_ip host =
    (host == codes "localhost") || elim (parse_ip host) [ none ↦ false | some ip ↦ is_loopback ip ]

is_local : (Text → Option IpAddr) → Option Text → Bool
unfolding is_loopback_host
is_local parse_ip none = false
is_local parse_ip (some host) = is_loopback_host parse_ip host

has_host : Option Text → Bool
has_host none = false
has_host (some host) = true

unfoldable pub normalize_server_url :
    UrlCrate → (Text → Option IpAddr) → Text → Result UrlError Text
unfolding is_local has_host
normalize_server_url crate parse_ip value = do
  url ← ok_or (crate.parse (trim value)) invalid
  ensure
      ((crate.scheme url == codes "https")
        || ((crate.scheme url == codes "http") && is_local parse_ip (crate.host_str url)))
      insecure
  ensure (has_host (crate.host_str url)) no_host
  ok (trim_end_matches b'/' (crate.bare url))

-- What the commands work on: the runtime, the entries of the keychain by their names, the
-- configuration's file, and how often the agent was started anew.
pub record App : Type 0 where
  pub runtime : RuntimeState
  pub keychain : Map Text Text
  pub config_file : Option AgentConfig
  pub restarts : ℕ

unfoldable pub save_config : App → AgentConfig → App
save_config app config = record app { config_file = some config }

-- A file that is there holds what `save_config` wrote.
pub load_config : App → Option AgentConfig
load_config app = app.config_file

unfoldable pub set_password : App → Text → Text → App
set_password app name value = record app { keychain = insert app.keychain name value }

module _ (uuid_text : Uuid → Text) where
  unfoldable pub token_entry : Uuid → Text
  token_entry id = uuid_text id

  unfoldable pub fingerprint_entry : Uuid → Text
  fingerprint_entry id = uuid_text id ++ codes ":transport-fingerprint"

  unfoldable pub certificate_entry : Uuid → Text
  certificate_entry id = uuid_text id ++ codes ":transport-certificate"

  unfoldable pub save_token : App → Uuid → Text → App
  unfolding set_password token_entry
  save_token app id token = set_password app (token_entry id) token

  unfoldable pub load_token : App → Uuid → Option Text
  unfolding token_entry
  load_token app id = get app.keychain (token_entry id)

  unfoldable pub save_transport_fingerprint : App → Uuid → Text → App
  unfolding set_password fingerprint_entry
  save_transport_fingerprint app id fingerprint =
      set_password app (fingerprint_entry id) fingerprint

  unfoldable pub load_transport_fingerprint : App → Uuid → Option Text
  unfolding fingerprint_entry
  load_transport_fingerprint app id = get app.keychain (fingerprint_entry id)

  unfoldable pub save_transport_certificate : App → Uuid → Text → App
  unfolding set_password certificate_entry
  save_transport_certificate app id certificate =
      set_password app (certificate_entry id) certificate

  unfoldable pub load_transport_certificate : App → Uuid → Option Text
  unfolding certificate_entry
  load_transport_certificate app id = get app.keychain (certificate_entry id)
