-- ===== src/Server/Tunnels/Store/Update.antt =====
-- What `update` and `delete` leave, and to whom they refuse.
use tunnelbridge.Prelude.{◌≡◌, refl, sym, ◌∙◌, ◌≢◌, false, Option, some, arith, ◌==◌, nat_eq}
use tunnelbridge.Prelude.Text.{Text}
use tunnelbridge.Prelude.Result.{ok, err, >>=-eq-ok, >>-eq-ok, ok_injective}
use tunnelbridge.Net.{IpAddr}
use tunnelbridge.Protocol.{Uuid, DateTime, Tunnel, UpdateTunnelRequest}
use tunnelbridge.Server.Error.{not_found}
use tunnelbridge.Server.Config.{Config}
use tunnelbridge.Server.Db.{Db, update_tunnel}
use tunnelbridge.Server.Db.Valid.{IsValid, update_tunnel-IsValid}
use tunnelbridge.Server.Tunnels.Rows.{Columns}
use tunnelbridge.Server.Tunnels.Validate.Laws.{IsTunnel}
use tunnelbridge.Server.Tunnels.Edit.{edit}
use tunnelbridge.Server.Tunnels.Edit.Laws.{Keeps, edit_ok}
use tunnelbridge.Server.Tunnels.Store.Laws.{finish_ok}
use tunnelbridge.Server.Tunnels.Store.{foreign_owner, check_owner, get, set_columns, update, delete}

module _ (columns : Columns) (db : Db) (id : Uuid) where
  module _ (parse_ip : Text → Option IpAddr) (config : Config) (now : DateTime)
      (owner : Option Uuid) (request : UpdateTunnelRequest) (t' : Tunnel) (db' : Db)
      (updated : update columns parse_ip config db id now owner request ≡ ok (t', db')) where
    -- The parts of an `update` that succeeds.
    pub update_ok :
        (t : Tunnel) × (get columns db id ≡ ok t)
        × (foreign_owner owner t ≡ false)
        × (edit parse_ip config now request t ≡ ok t')
        × (update_tunnel db (columns.uuid_text t'.id) (set_columns columns t') ≡ ok db')
    unfolding update
    update_ok =
        let (t, found, h1) = >>=-eq-ok (get columns db id) _ updated in
        let (mine, h2) = >>-eq-ok (check_owner owner t) _ h1 in
        let (u, edited, h3) = >>=-eq-ok (edit parse_ip config now request t) _ h2 in
        let (same, written) =
          finish_ok _ u t' (update_tunnel db (columns.uuid_text u.id) (set_columns columns u)) db'
            h3 in
        (t, found, ground (arith, mine), rw same edited, rw same written)

    -- When `update` succeeds on a tunnel that satisfies what the server promises of one, the result
    -- does too, and its identifier, device, kind and time of creation are those of the tunnel before;
    -- if a device asked, it is the tunnel's own.
    pub update-IsTunnel :
        (t : Tunnel)
        → get columns db id ≡ ok t
        → IsTunnel config t
        → IsTunnel config t' × Keeps config t t' × (foreign_owner owner t ≡ false)
    update-IsTunnel t found h =
        let (u, found', mine, edited, _) = update_ok in
        let same : t ≡ u = ok_injective (sym found ∙ found') in
        let (kept, valid) = edit_ok parse_ip config now request t t' (rw same edited) h in
        (valid, kept, rw same mine)

    -- An update keeps the constraints of the table.
    -- When `update` succeeds on a table that satisfies its constraints, the table still does.
    pub update-IsValid : IsValid db → IsValid db'
    unfolding set_columns
    update-IsValid v =
        update_tunnel-IsValid db db' (columns.uuid_text t'.id) (set_columns columns t') (λ r. refl)
          update_ok.4 v

  -- To a device that does not own an existing tunnel, `update` and `delete` say that there is none.
  pub foreign_not_found :
      (parse_ip : Text → Option IpAddr) (config : Config) (now : DateTime) (owner : Uuid)
      (request : UpdateTunnelRequest) (t : Tunnel)
      → get columns db id ≡ ok t
      → owner ≢ t.agent_id
      → (update columns parse_ip config db id now (some owner) request ≡ err not_found)
        × (delete columns db id (some owner) ≡ err not_found)
  unfolding update delete
  foreign_not_found parse_ip config now owner request t found h =
      let other : (owner == t.agent_id) ≡ false = ground (arith, h) in
      (rw (found, other), rw (found, other))
