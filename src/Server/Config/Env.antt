-- ===== src/Server/Config/Env.antt =====
-- server/src/config.rs: `Config::from_env`. The environment is an argument: what `env::var` gives for a
-- name, `none` where it fails. The parsers of numbers, socket addresses and networks are the standard
-- library's and the crate `ipnet`'s, each for the values of its type; the number of days is taken not to be
-- negative. Paths are left out.
use tunnelbridge.Prelude.{
  ℕ, ◌*◌, ◌≤◌, ◌<◌, ◌≡◌, sym, ap, Bool, true, not, ◌||◌, Option, none, some, List, [], ◌∷◌, ltb,
  ◌==◌, nat_eq, arith,
}
use tunnelbridge.Prelude.Text.{
  Text, text_eq, codes, trim, split, drop_start, drop_end, to_ascii_lowercase,
}
use tunnelbridge.Prelude.Result.{
  Result, ok, ◌>>=◌, ◌>>◌, ensure, ok_or, >>=-eq-ok, >>-eq-ok, ok_injective,
}
use tunnelbridge.Net.{IpNet, SocketAddr}
use tunnelbridge.Server.Config.{Config}

-- The message of the failure is for the operator only; the name of the variable is kept.
pub data EnvError : Type 0 where
  invalid : Text → EnvError
  invalid_range : ℕ → ℕ → EnvError

-- `env::var(key).unwrap_or_else(|_| default)`
pub or_default : Option Text → Text → Text
or_default none default_text = default_text
or_default (some value) default_text = value

-- `map_or(true, |v| v != "false")`
is_not_false : Option Text → Bool
is_not_false none = true
is_not_false (some value) = not (value == codes "false")

unfoldable pub parse_env : (Text → Option Text) → (Text → Option ℕ) → Text → ℕ → Result EnvError ℕ
parse_env var parse key default_number = elim (var key) [
  | none ↦ ok default_number
  | some value ↦ ok_or (parse value) (invalid key)
]

pub parse_nets : (Text → Option IpNet) → List Text → Result EnvError (List IpNet)
parse_nets parse_net [] = ok []
parse_nets parse_net (value ∷ values) = do
  net ← ok_or (parse_net (trim value)) (invalid (codes "TB_TRUSTED_PROXY_CIDRS"))
  nets ← parse_nets parse_net values
  ok (net ∷ nets)

-- `trim_matches('.')`
trim_dots : Text → Text
trim_dots t = drop_end (λ c. c == b'.') (drop_start (λ c. c == b'.') t)

module _ (var : Text → Option Text) (parse_u16 parse_u64 parse_days : Text → Option ℕ)
    (parse_addr : Text → Option SocketAddr) (parse_net : Text → Option IpNet) where
  -- The fields other than the two ends of the pool.
  rest_of_env : ℕ → ℕ → Result EnvError Config
  unfolding parse_env parse_nets or_default is_not_false trim_dots
  rest_of_env port_start port_end = do
    ticket_ttl ← parse_env var parse_u64 (codes "TB_TICKET_TTL_SECONDS") 15
    connect_timeout ← parse_env var parse_u64 (codes "TB_CONNECT_TIMEOUT_SECONDS") 15
    idle_timeout ← parse_env var parse_u64 (codes "TB_IDLE_TIMEOUT_SECONDS") 600
    session_ttl ← parse_env var parse_u64 (codes "TB_SESSION_TTL_SECONDS") 43200
    audit_retention_days ← parse_env var parse_days (codes "TB_AUDIT_RETENTION_DAYS") 30
    quic_port ← parse_env var parse_u16 (codes "TB_QUIC_PORT") 443
    quic_listen_port ← parse_env var parse_u16 (codes "TB_QUIC_LISTEN_PORT") 7443
    kcp_port ← parse_env var parse_u16 (codes "TB_KCP_PORT") 4000
    udp_session_timeout ← parse_env var parse_u64 (codes "TB_UDP_SESSION_TIMEOUT_SECONDS") 60
    trusted_proxy_cidrs ←
        parse_nets parse_net
          (split b',' (or_default (var (codes "TB_TRUSTED_PROXY_CIDRS")) (codes "172.16.0.0/12")))
    ok (record {
      admin_password = var (codes "TB_ADMIN_PASSWORD");
      port_start = port_start;
      port_end = port_end;
      ticket_ttl = ticket_ttl * 1000;
      connect_timeout = connect_timeout * 1000;
      idle_timeout = idle_timeout * 1000;
      session_ttl = session_ttl * 1000;
      audit_retention_days = audit_retention_days;
      secure_cookies = is_not_false (var (codes "TB_SECURE_COOKIES"));
      geoip_url = or_default (var (codes "TB_GEOIP_URL")) (codes "https://ipwho.is/{ip}");
      web_base_domain = to_ascii_lowercase (
          trim_dots
            (or_default (var (codes "TB_WEB_BASE_DOMAIN")) (codes "tunnelbridge.252202.xyz")));
      quic_port = quic_port;
      quic_listen_port = quic_listen_port;
      kcp_port = kcp_port;
      udp_session_timeout = udp_session_timeout * 1000;
      trusted_proxy_cidrs = trusted_proxy_cidrs;
    })

  unfoldable pub from_env : Result EnvError Config
  unfolding parse_env rest_of_env or_default
  from_env = do
    listen_addr ←
        ok_or (parse_addr (or_default (var (codes "TB_LISTEN_ADDR")) (codes "0.0.0.0:8080")))
          (invalid (codes "TB_LISTEN_ADDR"))
    port_start ← parse_env var parse_u16 (codes "TB_PORT_START") 20000
    port_end ← parse_env var parse_u16 (codes "TB_PORT_END") 20100
    ensure (not (port_start == 0 || ltb port_end port_start)) (invalid_range port_start port_end)
    rest_of_env port_start port_end

  rest_of_env_range :
      (a b : ℕ) (config : Config)
      → rest_of_env a b ≡ ok config
      → (config.port_start ≡ a) × (config.port_end ≡ b)
  unfolding rest_of_env
  rest_of_env_range a b config h0 =
      let (_, _, h1) =
        >>=-eq-ok (parse_env var parse_u64 (codes "TB_TICKET_TTL_SECONDS") 15) _ h0 in
      let (_, _, h2) =
        >>=-eq-ok (parse_env var parse_u64 (codes "TB_CONNECT_TIMEOUT_SECONDS") 15) _ h1 in
      let (_, _, h3) =
        >>=-eq-ok (parse_env var parse_u64 (codes "TB_IDLE_TIMEOUT_SECONDS") 600) _ h2 in
      let (_, _, h4) =
        >>=-eq-ok (parse_env var parse_u64 (codes "TB_SESSION_TTL_SECONDS") 43200) _ h3 in
      let (_, _, h5) =
        >>=-eq-ok (parse_env var parse_days (codes "TB_AUDIT_RETENTION_DAYS") 30) _ h4 in
      let (_, _, h6) = >>=-eq-ok (parse_env var parse_u16 (codes "TB_QUIC_PORT") 443) _ h5 in
      let (_, _, h7) =
        >>=-eq-ok (parse_env var parse_u16 (codes "TB_QUIC_LISTEN_PORT") 7443) _ h6 in
      let (_, _, h8) = >>=-eq-ok (parse_env var parse_u16 (codes "TB_KCP_PORT") 4000) _ h7 in
      let (_, _, h9) =
        >>=-eq-ok (parse_env var parse_u64 (codes "TB_UDP_SESSION_TIMEOUT_SECONDS") 60) _ h8 in
      let (_, _, h10) =
        >>=-eq-ok
          (parse_nets parse_net (
            split b',' (or_default (var (codes "TB_TRUSTED_PROXY_CIDRS")) (codes "172.16.0.0/12"))))
          _ h9 in
      let same = ok_injective h10 in
      (sym (ap (λ c. c.port_start) same), sym (ap (λ c. c.port_end) same))

  in_range :
      (a b : ℕ) → ensure (not (a == 0 || ltb b a)) (invalid_range a b) ≡ ok tt → (0 < a) × (a ≤ b)
  in_range a b h = (ground arith, ground arith)

  -- The pool of ports of a configuration that is read is a range that is not empty and does not start at 0.
  pub from_env_range :
      (config : Config)
      → from_env ≡ ok config
      → (0 < config.port_start) × (config.port_start ≤ config.port_end)
  unfolding from_env
  from_env_range config h =
      let (_, _, h1) =
        >>=-eq-ok
          (ok_or (parse_addr (or_default (var (codes "TB_LISTEN_ADDR")) (codes "0.0.0.0:8080")))
            (invalid (codes "TB_LISTEN_ADDR")))
          _ h in
      let (a, _, h2) = >>=-eq-ok (parse_env var parse_u16 (codes "TB_PORT_START") 20000) _ h1 in
      let (b, _, h3) = >>=-eq-ok (parse_env var parse_u16 (codes "TB_PORT_END") 20100) _ h2 in
      let (good, h4) = >>-eq-ok (ensure (not (a == 0 || ltb b a)) (invalid_range a b)) _ h3 in
      let (e, f) = rest_of_env_range a b config h4 in
      let (positive, ordered) = in_range a b good in
      (omega (arith, e, positive), omega (arith, e, f, ordered))
