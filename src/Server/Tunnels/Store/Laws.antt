-- ===== src/Server/Tunnels/Store/Laws.antt =====
-- What `create` leaves.
use Prim.Native.String.{String}
use tunnelbridge.Prelude.{ℕ, ◌≤◌, ◌≡◌, refl, sym, subst, Option, none, some, ◌∷◌, arith}
use tunnelbridge.Prelude.Text.{Text}
use tunnelbridge.Prelude.Text.Trim.{length-trim}
use tunnelbridge.Prelude.Result.{Result, ok, >>=-eq-ok, >>-eq-ok}
use tunnelbridge.Net.{IpAddr}
use tunnelbridge.Protocol.{Uuid, DateTime, Tunnel, TunnelKind, CreateTunnelRequest}
use tunnelbridge.Server.Config.{Config}
use tunnelbridge.Server.Db.{Db, DbError, insert_tunnel}
use tunnelbridge.Server.Db.Valid.{IsValid, insert_tunnel_ok, insert_tunnel-IsValid}
use tunnelbridge.Server.Tunnels.Rows.{Columns, tunnel_to_row, kind_str}
use tunnelbridge.Server.Tunnels.Ports.{allocate_port, used_ports}
use tunnelbridge.Server.Tunnels.Ports.Laws.{Allocates, allocate_port_lem}
use tunnelbridge.Server.Tunnels.Validate.{validate_create, normalize_hostname, requested_hostname}
use tunnelbridge.Server.Tunnels.Validate.Laws.{
  IsTunnel, IsAllowedTarget, IsEndpoint, InPool, Passed, validate_create_ok,
  validate_remote_port_ok, normalize_hostname_ok,
}
use tunnelbridge.Server.Tunnels.Store.{
  finish, given_port, choose_port, choose_hostname, new_tunnel, create,
}

pub finish_ok :
    (message : String) (t t' : Tunnel) (r : Result DbError Db) (db' : Db)
    → finish message t r ≡ ok (t', db')
    → (t' ≡ t) × (r ≡ ok db')
unfolding finish
finish_ok message t t' r db' h = ground arith

-- An allocated port lies in the pool.
allocate_port-InPool :
    (config : Config) (db : Db) (kind : TunnelKind) (p : ℕ)
    → config.port_start ≤ config.port_end
    → allocate_port config db kind ≡ ok p
    → InPool config p
allocate_port-InPool config db kind p h e =
    let lem =
      subst (Allocates config (used_ports (kind_str kind) db.tunnels)) e
        (allocate_port_lem config db kind h) in
    (lem.0, omega (arith, lem.1))

given_port-InPool :
    (config : Config) (db : Db) (asked : Option ℕ) (kind : TunnelKind) (p : ℕ)
    → config.port_start ≤ config.port_end
    → given_port config db asked kind ≡ ok p
    → InPool config p
unfolding given_port
given_port-InPool config db (some q) kind p h e = ground (arith, validate_remote_port_ok config q)
given_port-InPool config db none kind p h e = allocate_port-InPool config db kind p h e

-- The port and the hostname that `create` chooses are an endpoint of the kind.
chosen-IsEndpoint :
    (config : Config) (db : Db) (request : CreateTunnelRequest) (kind : TunnelKind)
    (port : Option ℕ) (hostname : Option Text)
    → config.port_start ≤ config.port_end
    → choose_port config db request kind ≡ ok port
    → choose_hostname config request kind ≡ ok hostname
    → IsEndpoint config kind port hostname
unfolding choose_port choose_hostname
chosen-IsEndpoint config db request TunnelKind.tcp port hostname h e f =
    let (p, e1, e2) = >>=-eq-ok (given_port config db request.remote_port TunnelKind.tcp) _ e in
    let q = given_port-InPool config db request.remote_port TunnelKind.tcp p h e1 in
    ground (arith, q)
chosen-IsEndpoint config db request TunnelKind.udp port hostname h e f =
    let (p, e1, e2) = >>=-eq-ok (given_port config db request.remote_port TunnelKind.udp) _ e in
    let q = given_port-InPool config db request.remote_port TunnelKind.udp p h e1 in
    ground (arith, q)
chosen-IsEndpoint config db request TunnelKind.web port hostname h e f =
    let (name, f1, f2) = >>=-eq-ok (normalize_hostname config (requested_hostname request)) _ f in
    let q = normalize_hostname_ok config (requested_hostname request) name f1 in
    let at_port : none ≡ port = cc in
    let at_name : some name ≡ hostname = cc in
    subst (λ o. IsEndpoint config TunnelKind.web o hostname) at_port
      (subst (IsEndpoint config TunnelKind.web none) at_name q)

module _ (columns : Columns) (parse_ip : Text → Option IpAddr) (config : Config) (db : Db)
    (id : Uuid) (now : DateTime) (agent_id : Uuid) (request : CreateTunnelRequest) (t : Tunnel)
    (db' : Db)
    (created : create columns parse_ip config db id now agent_id request ≡ ok (t, db')) where
  -- The parts of a `create` that succeeds.
  pub create_ok :
      Passed parse_ip request
      × ((port : Option ℕ) × (hostname : Option Text) × (choose_port config db request request.kind
            ≡ ok port)
          × (choose_hostname config request request.kind ≡ ok hostname)
          × (t ≡ new_tunnel id now agent_id request port hostname)
          × (insert_tunnel db (tunnel_to_row columns t) ≡ ok db'))
  unfolding create
  create_ok =
      let (passed, h1) = >>-eq-ok (validate_create parse_ip config request) _ created in
      let (port, e, h2) = >>=-eq-ok (choose_port config db request request.kind) _ h1 in
      let (hostname, f, h3) = >>=-eq-ok (choose_hostname config request request.kind) _ h2 in
      let u = new_tunnel id now agent_id request port hostname in
      let (same, written) = finish_ok _ u t (insert_tunnel db (tunnel_to_row columns u)) db' h3 in
      (
        validate_create_ok parse_ip config request passed,
        (port, hostname, e, f, same, rw same written),
      )

  -- If the pool of ports is a range that is not empty, a tunnel that `create` returns has a name of 1
  -- to 80 characters; a local host of 1 to 253 bytes without blanks, which is the machine itself unless
  -- the request confirms another target; a local port other than 0; a scheme that fits its kind; a public
  -- endpoint that fits its kind (a port of the pool, or a DNS label under the base domain); and a network
  -- at least if it is restricted to an allowlist. It has the new identifier and belongs to the device
  -- that asked.
  pub create-IsTunnel :
      config.port_start ≤ config.port_end
      → IsTunnel config t
        × IsAllowedTarget parse_ip request.allow_lan_target t.local_host
        × (t.id ≡ id)
        × (t.agent_id ≡ agent_id)
  unfolding new_tunnel
  create-IsTunnel h =
      let (passed, parts) = create_ok in
      let (port, hostname, e, f, same, _) = parts in
      let new_IsTunnel : IsTunnel config (new_tunnel id now agent_id request port hostname) =
        record {
          named = passed.named;
          short = omega (arith, passed.short, length-trim request.name);
          port = passed.port;
          host = passed.host;
          scheme = passed.scheme;
          endpoint = chosen-IsEndpoint config db request request.kind port hostname h e f;
          guarded = passed.guarded;
        } in
      subst
        (λ u.
          IsTunnel config u
          × IsAllowedTarget parse_ip request.allow_lan_target u.local_host
          × (u.id ≡ id)
          × (u.agent_id ≡ agent_id))
        (sym same) (new_IsTunnel, passed.target, refl, refl)

  -- When `create` succeeds on a table that satisfies its constraints, the table has one more row,
  -- that of the tunnel, and still satisfies them.
  pub create-IsValid :
      IsValid db
      → IsValid db' × (db' ≡ record db { tunnels = tunnel_to_row columns t ∷ db.tunnels })
  create-IsValid v =
      let (_, written) = create_ok in
      (
        insert_tunnel-IsValid db db' (tunnel_to_row columns t) written.5 v,
        (insert_tunnel_ok db db' (tunnel_to_row columns t) written.5).3,
      )
