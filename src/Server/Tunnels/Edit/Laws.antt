-- ===== src/Server/Tunnels/Edit/Laws.antt =====
-- What `update` keeps of a tunnel.
use tunnelbridge.Prelude.{
  ℕ, ◌<◌, ◌≡◌, refl, subst, Bool, true, false, Option, none, some, List, arith, ◌==◌, Bool-cases,
  inl, inr,
}
use tunnelbridge.Prelude.Text.{Text, trim}
use tunnelbridge.Prelude.Result.{ok, >>=-eq-ok, >>-eq-ok, ok_injective}
use tunnelbridge.Net.{IpAddr, IpNet}
use tunnelbridge.Protocol.{
  DateTime, Tunnel, TunnelKind, kind_eq, UpdateTunnelRequest, LocalScheme, AccessMode,
}
use tunnelbridge.Server.Config.{Config}
use tunnelbridge.Server.Tunnels.Validate.{
  validate_remote_port, normalize_hostname, validate_tunnel, validate_local_host,
}
use tunnelbridge.Server.Tunnels.Validate.Laws.{
  IsTunnel, IsEndpoint, InPool, IsHostname, validate_remote_port_ok, normalize_hostname_ok,
  validate_tunnel_ok, IsHost, validate_local_host_ok,
}
use tunnelbridge.Server.Tunnels.Edit.{
  set_name, set_local_host, set_local_port, set_remote_port, check_kind, or_keep, set_hostname,
  set_rest, edit,
}

-- What no update changes, and what each of its steps keeps.
pub record Keeps (config : Config) (t u : Tunnel) : Type 0 where
  pub same_id : u.id ≡ t.id
  pub same_agent : u.agent_id ≡ t.agent_id
  pub same_kind : u.kind ≡ t.kind
  pub same_creation : u.created_at ≡ t.created_at
  pub port : 0 < u.local_port
  pub host : IsHost u.local_host
  pub endpoint : IsEndpoint config u.kind u.remote_port u.hostname

module _ (config : Config) where
  move_port :
      (kind : TunnelKind) (port : Option ℕ) (hostname : Option Text) (p : ℕ)
      → (kind == TunnelKind.web) ≡ false
      → InPool config p
      → IsEndpoint config kind port hostname
      → IsEndpoint config kind (some p) hostname
  move_port TunnelKind.tcp (some q) none p h i e = i
  move_port TunnelKind.udp (some q) none p h i e = i
  move_port TunnelKind.web port hostname p h i e = cc
  move_port TunnelKind.tcp none hostname p h i e = absurd e
  move_port TunnelKind.udp none hostname p h i e = absurd e
  move_port TunnelKind.tcp (some q) (some n) p h i e = absurd e
  move_port TunnelKind.udp (some q) (some n) p h i e = absurd e

  rename_host :
      (kind : TunnelKind) (port : Option ℕ) (hostname : Option Text) (n : Text)
      → (kind == TunnelKind.web) ≡ true
      → IsHostname config n
      → IsEndpoint config kind port hostname
      → IsEndpoint config kind port (some n)
  rename_host TunnelKind.tcp port hostname n h i e = cc
  rename_host TunnelKind.udp port hostname n h i e = cc
  rename_host TunnelKind.web none hostname n h i e = i
  rename_host TunnelKind.web (some q) hostname n h i e = absurd e

  module _ (t u v : Tunnel) (k : Keeps config t u) where
    -- A step that writes the port or the endpoint keeps the rest.
    with_port : (p : ℕ) → 0 < p → Keeps config t (record u { local_port = p })
    with_port p h = record {
      same_id = k.same_id;
      same_agent = k.same_agent;
      same_kind = k.same_kind;
      same_creation = k.same_creation;
      port = h;
      host = k.host;
      endpoint = k.endpoint;
    }

    -- So does a write to any other field that an update may change.
    with_others :
        (name host : Text) (scheme : LocalScheme) (mode : AccessMode) (cidrs : List IpNet)
        (enabled : Bool) (at : DateTime)
        → IsHost host
        → Keeps config t (record u {
          name = name;
          local_host = host;
          local_scheme = scheme;
          access_mode = mode;
          allowed_cidrs = cidrs;
          enabled = enabled;
          updated_at = at;
        })
    with_others name host scheme mode cidrs enabled at h = record {
      same_id = k.same_id;
      same_agent = k.same_agent;
      same_kind = k.same_kind;
      same_creation = k.same_creation;
      port = k.port;
      host = h;
      endpoint = k.endpoint;
    }

    with_endpoint :
        (port : Option ℕ) (hostname : Option Text)
        → IsEndpoint config u.kind port hostname
        → Keeps config t (record u { remote_port = port; hostname = hostname })
    with_endpoint port hostname h = record {
      same_id = k.same_id;
      same_agent = k.same_agent;
      same_kind = k.same_kind;
      same_creation = k.same_creation;
      port = k.port;
      host = k.host;
      endpoint = h;
    }

    set_local_port-Keeps : (o : Option ℕ) → set_local_port o u ≡ ok v → Keeps config t v
    unfolding set_local_port
    set_local_port-Keeps none e = subst (Keeps config t) (cc) k
    set_local_port-Keeps (some p) e =
        subst (Keeps config t) (ground arith) (with_port p (ground arith))

    set_remote_port-Keeps : (o : Option ℕ) → set_remote_port config o u ≡ ok v → Keeps config t v
    unfolding set_remote_port
    set_remote_port-Keeps none e = subst (Keeps config t) (cc) k
    set_remote_port-Keeps (some p) e = elim (Bool-cases (u.kind == TunnelKind.web)) [
      | inl web ↦ absurd (cc (rw web at e))
      | inr other ↦
          let (valid, written) = >>-eq-ok (validate_remote_port config p) _ (rw other at e) in
          subst (Keeps config t) (cc) (
            with_endpoint (some p) u.hostname (
              move_port u.kind u.remote_port u.hostname p other
                (validate_remote_port_ok config p valid) k.endpoint))
    ]

    set_hostname-Keeps : (o : Option Text) → set_hostname config o u ≡ ok v → Keeps config t v
    unfolding set_hostname
    set_hostname-Keeps none e = subst (Keeps config t) (cc) k
    set_hostname-Keeps (some n) e = elim (Bool-cases (u.kind == TunnelKind.web)) [
      | inl web ↦
          let (h, valid, written) = >>=-eq-ok (normalize_hostname config n) _ (rw web at e) in
          subst (Keeps config t) (cc) (
            with_endpoint u.remote_port (some h) (
              rename_host u.kind u.remote_port u.hostname h web
                (normalize_hostname_ok config n h valid) k.endpoint))
      | inr other ↦ absurd (cc (rw other at e))
    ]

module _ (parse_ip : Text → Option IpAddr) (config : Config) (t u v : Tunnel)
    (k : Keeps config t u) where
  set_local_host-Keeps :
      (o : Option Text) (lan : Bool) → set_local_host parse_ip o lan u ≡ ok v → Keeps config t v
  unfolding set_local_host
  set_local_host-Keeps none lan e = subst (Keeps config t) (cc) k
  set_local_host-Keeps (some host) lan e =
      let (valid, written) = >>-eq-ok (validate_local_host parse_ip host lan) _ e in
      subst (Keeps config t) (cc) (
        with_others config t u u k u.name (trim host) u.local_scheme u.access_mode u.allowed_cidrs
          u.enabled u.updated_at (validate_local_host_ok parse_ip host lan valid).0)

Keeps-refl : (config : Config) (t : Tunnel) → IsTunnel config t → Keeps config t t
Keeps-refl config t h = record {
  same_id = refl;
  same_agent = refl;
  same_kind = refl;
  same_creation = refl;
  port = h.port;
  host = h.host;
  endpoint = h.endpoint;
}

set_name-Keeps :
    (config : Config) (t : Tunnel) (o : Option Text)
    → IsTunnel config t
    → Keeps config t (set_name o t)
unfolding set_name
set_name-Keeps config t none h = Keeps-refl config t h
set_name-Keeps config t (some n) h =
    with_others config t t t (Keeps-refl config t h) (trim n) t.local_host t.local_scheme
      t.access_mode t.allowed_cidrs t.enabled t.updated_at h.host

-- The steps of `edit` on fields whose new value is checked by `validate_tunnel` alone.
set_rest-Keeps :
    (config : Config) (t u : Tunnel) (request : UpdateTunnelRequest) (now : DateTime)
    → Keeps config t u
    → Keeps config t (record (set_rest request u) { updated_at = now })
unfolding set_rest
set_rest-Keeps config t u request now k =
    with_others config t u u k u.name u.local_host u.local_scheme
      (or_keep request.access_mode u.access_mode) (or_keep request.allowed_cidrs u.allowed_cidrs)
      (or_keep request.enabled u.enabled) now k.host

module _ (parse_ip : Text → Option IpAddr) (config : Config) (now : DateTime)
    (request : UpdateTunnelRequest) (t v : Tunnel) where
  pub edit_ok :
      edit parse_ip config now request t ≡ ok v
      → IsTunnel config t
      → Keeps config t v × IsTunnel config v
  unfolding edit
  edit_ok e h =
      let t1 = set_name request.name t in
      let k1 = set_name-Keeps config t request.name h in
      let (t2, e2, r2) =
        >>=-eq-ok (set_local_host parse_ip request.local_host request.allow_lan_target t1) _ e in
      let k2 =
        set_local_host-Keeps parse_ip config t t1 t2 k1 request.local_host request.allow_lan_target
          e2 in
      let (t3, e3, r3) = >>=-eq-ok (set_local_port request.local_port t2) _ r2 in
      let k3 = set_local_port-Keeps config t t2 t3 k2 request.local_port e3 in
      let (t4, e4, r4) = >>=-eq-ok (set_remote_port config request.remote_port t3) _ r3 in
      let k4 = set_remote_port-Keeps config t t3 t4 k3 request.remote_port e4 in
      let (e5, r5) = >>-eq-ok (check_kind request.kind t4) _ r4 in
      let t5 = record t4 { local_scheme = or_keep request.local_scheme t4.local_scheme } in
      let k5 =
        with_others config t t4 t4 k4 t4.name t4.local_host
          (or_keep request.local_scheme t4.local_scheme) t4.access_mode t4.allowed_cidrs t4.enabled
          t4.updated_at k4.host in
      let (t6, e6, r6) = >>=-eq-ok (set_hostname config request.hostname t5) _ r5 in
      let k6 = set_hostname-Keeps config t t5 t6 k5 request.hostname e6 in
      let t7 = set_rest request t6 in
      let (e7, r7) = >>-eq-ok (validate_tunnel t7) _ r6 in
      let k7 = set_rest-Keeps config t t6 request now k6 in
      let (named, short, scheme, guarded) = validate_tunnel_ok t7 e7 in
      let done : IsTunnel config (record t7 { updated_at = now }) = record {
        named = named;
        short = short;
        port = k7.port;
        host = k7.host;
        scheme = scheme;
        endpoint = k7.endpoint;
        guarded = guarded;
      } in
      subst (λ w. Keeps config t w × IsTunnel config w) (ok_injective r7) (k7, done)
