-- ===== src/Server/Tunnels/Edit/Port.antt =====
-- The local port that `update` of server/src/tunnels.rs leaves.
use tunnelbridge.Prelude.{ℕ, ◌<◌, ◌^◌, ◌≡◌, subst, sym, ap, Bool, Option, none, some, arith}
use tunnelbridge.Prelude.Text.{Text}
use tunnelbridge.Prelude.Result.{ok, >>=-eq-ok, >>-eq-ok, ok_injective}
use tunnelbridge.Net.{IpAddr}
use tunnelbridge.Protocol.{DateTime, Tunnel, kind_eq, UpdateTunnelRequest}
use tunnelbridge.Server.Config.{Config}
use tunnelbridge.Server.Tunnels.Rows.RoundTrip.{IsU16}
use tunnelbridge.Server.Tunnels.Validate.{validate_tunnel, validate_local_host}
use tunnelbridge.Server.Tunnels.Edit.{
  set_name, set_local_host, set_local_port, set_remote_port, check_kind, or_keep, set_hostname,
  set_rest, edit,
}

module _ (u v : Tunnel) where
  local_host_port :
      (parse_ip : Text → Option IpAddr) (o : Option Text) (lan : Bool)
      → set_local_host parse_ip o lan u ≡ ok v
      → v.local_port ≡ u.local_port
  unfolding set_local_host
  local_host_port parse_ip none lan e = ground arith
  local_host_port parse_ip (some h) lan e =
      let (_, same) = >>-eq-ok (validate_local_host parse_ip h lan) _ e in
      ap Tunnel.local_port (sym (ok_injective same))

  local_port_small :
      (o : Option ℕ)
      → IsU16 o
      → set_local_port o u ≡ ok v
      → u.local_port < 2 ^ 16
      → v.local_port < 2 ^ 16
  unfolding set_local_port
  local_port_small none small e h = ground arith
  local_port_small (some p) small e h = ground arith

  remote_port_port :
      (config : Config) (o : Option ℕ)
      → set_remote_port config o u ≡ ok v
      → v.local_port ≡ u.local_port
  unfolding set_remote_port
  remote_port_port config none e = ground arith
  remote_port_port config (some p) e = ground arith

  hostname_port :
      (config : Config) (o : Option Text)
      → set_hostname config o u ≡ ok v
      → v.local_port ≡ u.local_port
  unfolding set_hostname
  hostname_port config none e = ground arith
  hostname_port config (some n) e = ground arith

set_name-small :
    (o : Option Text) (u : Tunnel) → u.local_port < 2 ^ 16 → (set_name o u).local_port < 2 ^ 16
unfolding set_name
set_name-small none u h = h
set_name-small (some n) u h = h

-- If the port of the request and the port before are 16-bit numbers, then so is the port afterwards.
pub edit-IsU16 :
    (parse_ip : Text → Option IpAddr) (config : Config) (now : DateTime)
    (request : UpdateTunnelRequest) (t v : Tunnel)
    → IsU16 request.local_port
    → t.local_port < 2 ^ 16
    → edit parse_ip config now request t ≡ ok v
    → v.local_port < 2 ^ 16
unfolding edit set_name set_rest
edit-IsU16 parse_ip config now request t v asked small e =
    let t1 = set_name request.name t in
    let (t2, e2, r2) =
      >>=-eq-ok (set_local_host parse_ip request.local_host request.allow_lan_target t1) _ e in
    let (t3, e3, r3) = >>=-eq-ok (set_local_port request.local_port t2) _ r2 in
    let (t4, e4, r4) = >>=-eq-ok (set_remote_port config request.remote_port t3) _ r3 in
    let (e5, r5) = >>-eq-ok (check_kind request.kind t4) _ r4 in
    let t5 = record t4 { local_scheme = or_keep request.local_scheme t4.local_scheme } in
    let (t6, e6, r6) = >>=-eq-ok (set_hostname config request.hostname t5) _ r5 in
    let (e7, r7) = >>-eq-ok (validate_tunnel (set_rest request t6)) _ r6 in
    let p1 : t1.local_port < 2 ^ 16 = set_name-small request.name t small in
    let p2 : t2.local_port < 2 ^ 16 =
      omega (
        arith,
        p1,
        local_host_port t1 t2 parse_ip request.local_host request.allow_lan_target e2,
      ) in
    let p3 = local_port_small t2 t3 request.local_port asked e3 p2 in
    let p6 : t6.local_port < 2 ^ 16 = omega (
      arith,
      p3,
      remote_port_port t3 t4 config request.remote_port e4,
      hostname_port t5 t6 config request.hostname e6,
    ) in
    subst (λ (w : Tunnel). w.local_port < 2 ^ 16) (ok_injective r7) p6
