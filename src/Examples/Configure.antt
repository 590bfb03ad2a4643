-- ===== src/Examples/Configure.antt =====
-- The theorem on `configure_server`, at values.
use tunnelbridge.Prelude.{◌≡◌, refl, true, false, Option, none, some, List, [], ◌∷◌}
use tunnelbridge.Prelude.Text.{Text, codes, trim}
use tunnelbridge.Prelude.Result.{ok}
use tunnelbridge.Agent.Runtime.{AgentConfig, new}
use tunnelbridge.Agent.Config.{UrlCrate, UrlError, App, normalize_server_url}
use tunnelbridge.Agent.Commands.{
  AgentEnrollment, Http, enrollment_payload, get_enrollment, as_enrollment, request,
}
use tunnelbridge.Agent.Commands.Configure.{configure_server, installation_of}
use tunnelbridge.Agent.Commands.Configure.Laws.{IsEnrolled, configure_server_lem}
use tunnelbridge.Examples.Data.{parse_ip, tunnel}
use tunnelbridge.Examples.Commands.{one_text}

abbrev crate : UrlCrate
crate = record {
  Url = Text;
  parse = λ t. some t;
  scheme = λ t. codes "https";
  host_str = λ t. some t;
  bare = λ t. t;
}

abbrev app : App
app = record { runtime = new; keychain = []; config_file = none; restarts = 0 }

abbrev url_text : UrlError → Text
url_text e = []

abbrev enrollment : AgentEnrollment
enrollment = record {
  tunnels = tunnel ∷ [];
  transport_fingerprint = codes "ab";
  transport_certificate_der = codes "cd";
  quic_port = 443;
  kcp_port = 4000;
}

abbrev http : Http (Unit {0})
http = record {
  serve = λ w server token call.
      (ok (record { status = 200; payload = enrollment_payload enrollment }), w);
  decode_error = [];
  print_status = λ n. [];
}

configure_server_example :
    (config : AgentConfig) × (e : AgentEnrollment) × (normalize_server_url crate parse_ip
        (codes "relay/")
      ≡ ok config.server_url)
    × ((request http as_enrollment tt config.server_url
          (trim (codes "abcdefghijklmnopqrstuv"))
          get_enrollment).0
        ≡ ok e)
    × (config.installation_id ≡ installation_of app.runtime.config 9)
    × (config.device_name ≡ trim (codes "laptop"))
    × IsEnrolled http one_text
        (codes "no entry")
        (configure_server one_text http crate parse_ip url_text app tt 5 9
          (codes "relay/")
          (codes "abcdefghijklmnopqrstuv")
          (codes "laptop")).1
        config
        (trim (codes "abcdefghijklmnopqrstuv"))
        e
unfolding configure_server normalize_server_url tunnelbridge.Prelude.list_beq
    tunnelbridge.Prelude.Text.utf8_len trim request as_enrollment
configure_server_example =
    configure_server_lem http one_text (codes "no entry") crate parse_ip url_text (codes "relay/")
      (codes "abcdefghijklmnopqrstuv") (codes "laptop") app tt 5 9 refl
