-- ===== src/Server/Tunnels/Validate/Laws.antt =====
-- What a tunnel satisfies that the checks have passed.
use tunnelbridge.Prelude.{
  ℕ, ◌≤◌, ◌<◌, ◌≡◌, Bool, true, false, Option, none, some, ◌∷◌, ◌++◌, arith, length, nat_eq, ◌⊎◌,
  inl, inr, Bool-cases, Option-cases,
}
use tunnelbridge.Prelude.Text.{Text, text_eq, codes, is_empty, trim, utf8_len, contains_whitespace}
use tunnelbridge.Prelude.Result.{ok}
use tunnelbridge.Net.{IpAddr, is_loopback}
use tunnelbridge.Protocol.{Tunnel, TunnelKind, kind_eq, LocalScheme, CreateTunnelRequest}
use tunnelbridge.Server.Config.{Config}
use tunnelbridge.Server.Tunnels.Validate.{
  compatible, allowlist_empty, is_label, validate_remote_port, validate_kind_scheme,
  normalize_hostname, validate_tunnel, validate_create, hostname_slug, validate_local_host,
  is_loopback_host,
}

-- The hostname of a web tunnel: a DNS label under the base domain.
abbrev pub IsHostname : Config → Text → Type 0
IsHostname config h =
    (slug : Text) × (is_label slug ≡ true) × (h ≡ slug ++ b'.' ∷ config.web_base_domain)

abbrev pub InPool : Config → ℕ → Type 0
InPool config p = (config.port_start ≤ p) × (p ≤ config.port_end)

-- A public endpoint of a kind: a port of the pool, or a hostname, and never both.
abbrev pub IsEndpoint : Config → TunnelKind → Option ℕ → Option Text → Type 0
IsEndpoint config TunnelKind.web none (some h) = IsHostname config h
IsEndpoint config TunnelKind.tcp (some p) none = InPool config p
IsEndpoint config TunnelKind.udp (some p) none = InPool config p
IsEndpoint config _ _ _ = ⊥

-- The host of a local target, as it is stored.
abbrev pub IsHost : Text → Type 0
IsHost h = (is_empty h ≡ false) × (utf8_len h ≤ 253) × (contains_whitespace h ≡ false)

-- A target that a request may ask for: the machine itself, or any other if the request confirms it.
abbrev pub IsAllowedTarget : (Text → Option IpAddr) → Bool → Text → Type 0
IsAllowedTarget parse_ip allow_lan h =
    (allow_lan ≡ true)
    ⊎ ((h ≡ codes "localhost") ⊎ ((a : IpAddr) × (parse_ip h ≡ some a) × (is_loopback a ≡ true)))

-- What the server promises of every tunnel that it stores. Whether a target outside the machine was
-- confirmed is not stored.
pub record IsTunnel (config : Config) (t : Tunnel) : Type 0 where
  pub named : is_empty t.name ≡ false
  pub short : length t.name ≤ 80
  pub port : 0 < t.local_port
  pub host : IsHost t.local_host
  pub scheme : compatible t.kind t.local_scheme ≡ true
  pub endpoint : IsEndpoint config t.kind t.remote_port t.hostname
  pub guarded : allowlist_empty t.access_mode t.allowed_cidrs ≡ false

pub validate_remote_port_ok :
    (config : Config) (port : ℕ) → validate_remote_port config port ≡ ok tt → InPool config port
unfolding validate_remote_port
validate_remote_port_ok config port h = ground arith

pub normalize_hostname_ok :
    (config : Config) (value h : Text)
    → normalize_hostname config value ≡ ok h
    → IsHostname config h
unfolding normalize_hostname
normalize_hostname_ok config value h e = (hostname_slug config value, ground arith, ground arith)

validate_kind_scheme_ok :
    (kind : TunnelKind) (scheme : LocalScheme)
    → validate_kind_scheme kind scheme ≡ ok tt
    → compatible kind scheme ≡ true
unfolding validate_kind_scheme
validate_kind_scheme_ok kind scheme h = ground arith

module _ (parse_ip : Text → Option IpAddr) where
  loopback_target :
      (h : Text)
      → is_loopback_host parse_ip h ≡ true
      → (h ≡ codes "localhost") ⊎ ((a : IpAddr) × (parse_ip h ≡ some a) × (is_loopback a ≡ true))
  unfolding is_loopback_host
  loopback_target h e = elim (Option-cases (parse_ip h)) [
    | inl failed ↦ inl (ground (arith, failed, text_eq.beq_iff h (codes "localhost")))
    | inr (a, parsed) ↦ elim (Bool-cases (is_loopback a)) [
      | inl own ↦ inr (a, parsed, own)
      | inr other ↦ inl (ground (arith, parsed, other, text_eq.beq_iff h (codes "localhost")))
    ]
  ]

  pub validate_local_host_ok :
      (host : Text) (allow_lan : Bool)
      → validate_local_host parse_ip host allow_lan ≡ ok tt
      → IsHost (trim host) × IsAllowedTarget parse_ip allow_lan (trim host)
  unfolding validate_local_host
  validate_local_host_ok host allow_lan h = (
    (ground arith, ground arith, ground arith),
    elim (Bool-cases allow_lan) [
      | inl confirmed ↦ inl confirmed
      | inr not_confirmed ↦ inr (loopback_target (trim host) (ground (arith, not_confirmed)))
    ],
  )

-- What `validate_create` has checked, the endpoint aside.
pub record Passed (parse_ip : Text → Option IpAddr) (request : CreateTunnelRequest) : Type 0 where
  pub named : is_empty (trim request.name) ≡ false
  pub short : length request.name ≤ 80
  pub port : 0 < request.local_port
  pub host : IsHost (trim request.local_host)
  pub target : IsAllowedTarget parse_ip request.allow_lan_target (trim request.local_host)
  pub scheme : compatible request.kind request.local_scheme ≡ true
  pub guarded : allowlist_empty request.access_mode request.allowed_cidrs ≡ false

module _ (parse_ip : Text → Option IpAddr) (config : Config) (request : CreateTunnelRequest) where
  pub validate_create_ok : validate_create parse_ip config request ≡ ok tt → Passed parse_ip request
  unfolding validate_create
  validate_create_ok h =
      let host : validate_local_host parse_ip request.local_host request.allow_lan_target ≡ ok tt =
        ground arith in
      let (valid, target) =
        validate_local_host_ok parse_ip request.local_host request.allow_lan_target host in
      record {
        named = ground arith;
        short = ground arith;
        port = ground arith;
        host = valid;
        target = target;
        scheme = ground (arith, validate_kind_scheme_ok request.kind request.local_scheme);
        guarded = ground arith;
      }

pub validate_tunnel_ok :
    (t : Tunnel)
    → validate_tunnel t ≡ ok tt
    → (is_empty t.name ≡ false)
      × (length t.name ≤ 80)
      × (compatible t.kind t.local_scheme ≡ true)
      × (allowlist_empty t.access_mode t.allowed_cidrs ≡ false)
unfolding validate_tunnel
validate_tunnel_ok t h = ground (arith, validate_kind_scheme_ok t.kind t.local_scheme)
