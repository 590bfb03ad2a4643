-- ===== src/Server/Tunnels/Validate.antt =====
-- server/src/tunnels.rs: the checks of a request and of a tunnel.
pub mod Laws
use tunnelbridge.Prelude.{
  ℕ, Bool, true, false, not, ◌&&◌, ◌||◌, Option, none, some, List, [], ◌∷◌, ◌++◌, ◌==◌, nat_eq, ltb,
  leb, all, length, if◌then◌else◌,
}
use tunnelbridge.Prelude.Text.{
  Text, text_eq, codes, is_empty, trim, trim_end_matches, to_ascii_lowercase, utf8_len,
  strip_suffix, starts_with_char, ends_with_char, contains_whitespace, is_ascii_lowercase,
  is_ascii_digit,
}
use tunnelbridge.Prelude.Map.{is_some}
use tunnelbridge.Prelude.Result.{Result, ok, err, ◌>>=◌, ◌>>◌, ensure}
use tunnelbridge.Net.{IpAddr, IpNet, is_loopback}
use tunnelbridge.Protocol.{
  Tunnel, TunnelKind, kind_eq, LocalScheme, AccessMode, CreateTunnelRequest,
}
use tunnelbridge.Server.Error.{AppError, bad_request, literal, port_range}
use tunnelbridge.Server.Config.{Config}

unfoldable pub validate_remote_port : Config → ℕ → Result AppError (Unit {0})
validate_remote_port config port =
    if leb config.port_start port && leb port config.port_end
    then ok tt
    else err (bad_request (port_range config.port_start config.port_end))

pub compatible : TunnelKind → LocalScheme → Bool
compatible TunnelKind.tcp LocalScheme.tcp = true
compatible TunnelKind.udp LocalScheme.udp = true
compatible TunnelKind.web LocalScheme.http = true
compatible TunnelKind.web LocalScheme.https = true
compatible _ _ = false

unfoldable pub validate_kind_scheme : TunnelKind → LocalScheme → Result AppError (Unit {0})
unfolding compatible
validate_kind_scheme kind scheme =
    ensure (compatible kind scheme)
      (bad_request (literal "local scheme is incompatible with tunnel kind"))

-- `AccessMode::Allowlist` with no network.
unfoldable pub allowlist_empty : AccessMode → List IpNet → Bool
allowlist_empty AccessMode.allowlist [] = true
allowlist_empty _ _ = false

-- The characters of a DNS label.
pub is_label_char : ℕ → Bool
unfolding is_ascii_lowercase is_ascii_digit
is_label_char c = is_ascii_lowercase c || (is_ascii_digit c || c == b'-')

pub is_label : Text → Bool
unfolding all
is_label slug = not (
    is_empty slug
    || (ltb 63 (utf8_len slug)
        || (starts_with_char b'-' slug
            || (ends_with_char b'-' slug || not (all is_label_char slug)))))

-- `value.ends_with(s)` holds exactly where `value.strip_suffix(s)` is `Some`.
pub slug_of : Text → Text → Text
slug_of suffix value = elim (strip_suffix suffix value) [ none ↦ value | some slug ↦ slug ]

-- The label that a requested hostname asks for.
pub hostname_slug : Config → Text → Text
hostname_slug config value =
    slug_of (b'.' ∷ config.web_base_domain)
      (to_ascii_lowercase (trim_end_matches b'.' (trim value)))

unfoldable pub normalize_hostname : Config → Text → Result AppError Text
normalize_hostname config value =
    let slug = hostname_slug config value in
    if is_label slug
    then ok (slug ++ b'.' ∷ config.web_base_domain)
    else err (
        bad_request (literal "hostname must be a DNS label containing letters, digits, or hyphens"))

-- `request.hostname.as_deref().unwrap_or(request.name.as_str())`
unfoldable pub requested_hostname : CreateTunnelRequest → Text
requested_hostname request = elim request.hostname [ none ↦ request.name | some h ↦ h ]

-- The part of `validate_create` on hostnames.
unfoldable pub validate_hostname : Config → CreateTunnelRequest → Result AppError (Unit {0})
validate_hostname config request =
    if request.kind == TunnelKind.web
    then (normalize_hostname config (requested_hostname request) >>= λ _. ok tt)
    else ensure (not (is_some request.hostname))
        (bad_request (literal "only web tunnels may specify a hostname"))

-- The part of `validate_tunnel` on the public endpoint.
unfoldable pub validate_endpoint : TunnelKind → Option ℕ → Option Text → Result AppError (Unit {0})
validate_endpoint TunnelKind.web remote_port hostname =
    ensure (is_some hostname) (bad_request (literal "web tunnel requires hostname"))
validate_endpoint _ remote_port hostname =
    ensure (is_some remote_port) (bad_request (literal "port tunnel requires remote_port"))

pub bad_name : Text → Text → Bool
bad_name trimmed name = is_empty trimmed || ltb 80 (length name)

-- `IpAddr::from_str` is a parameter.
module _ (parse_ip : Text → Option IpAddr) where
  unfoldable pub is_loopback_host : Text → Bool
  is_loopback_host host =
      host == codes "localhost" || elim (parse_ip host) [ none ↦ false | some a ↦ is_loopback a ]

  unfoldable pub validate_local_host : Text → Bool → Result AppError (Unit {0})
  validate_local_host host allow_lan = do
    let host = trim host
    ensure (not (is_empty host || (ltb 253 (utf8_len host) || contains_whitespace host)))
        (bad_request (literal "invalid local host"))
    ensure (is_loopback_host host || allow_lan)
        (bad_request (literal "non-loopback targets require allow_lan_target confirmation"))

  unfoldable pub validate_create : Config → CreateTunnelRequest → Result AppError (Unit {0})
  unfolding bad_name
  validate_create config request = do
    ensure (not (bad_name (trim request.name) request.name))
        (bad_request (literal "name must contain 1 to 80 characters"))
    ensure (not (request.local_port == 0)) (bad_request (literal "local port cannot be zero"))
    validate_local_host request.local_host request.allow_lan_target
    elim request.remote_port [ none ↦ ok tt | some port ↦ validate_remote_port config port ]
    validate_kind_scheme request.kind request.local_scheme
    validate_hostname config request
    ensure (not (allowlist_empty request.access_mode request.allowed_cidrs))
        (bad_request (literal "allowlist mode requires at least one CIDR"))

unfoldable pub validate_tunnel : Tunnel → Result AppError (Unit {0})
unfolding bad_name
validate_tunnel tunnel = do
  ensure (not (bad_name tunnel.name tunnel.name))
      (bad_request (literal "name must contain 1 to 80 characters"))
  ensure (not (allowlist_empty tunnel.access_mode tunnel.allowed_cidrs))
      (bad_request (literal "allowlist mode requires at least one CIDR"))
  validate_kind_scheme tunnel.kind tunnel.local_scheme
  validate_endpoint tunnel.kind tunnel.remote_port tunnel.hostname
