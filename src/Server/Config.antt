-- ===== src/Server/Config.antt =====
-- server/src/config.rs: the record that `Config::from_env` fills. Durations are in milliseconds, as
-- all instants of the model are. Paths and the listening address are not used by what is modelled.
pub mod Env
use tunnelbridge.Prelude.{ℕ, Bool, List, Option}
use tunnelbridge.Prelude.Text.{Text}
use tunnelbridge.Net.{IpNet}

pub record Config : Type 0 where
  pub admin_password : Option Text
  pub port_start : ℕ
  pub port_end : ℕ
  pub ticket_ttl : ℕ
  pub connect_timeout : ℕ
  pub idle_timeout : ℕ
  pub session_ttl : ℕ
  pub audit_retention_days : ℕ
  pub secure_cookies : Bool
  pub geoip_url : Text
  pub web_base_domain : Text
  pub quic_port : ℕ
  pub quic_listen_port : ℕ
  pub kcp_port : ℕ
  pub udp_session_timeout : ℕ
  pub trusted_proxy_cidrs : List IpNet
