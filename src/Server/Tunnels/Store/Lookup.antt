-- ===== src/Server/Tunnels/Store/Lookup.antt =====
-- What `get` finds after the other operations.
use tunnelbridge.Prelude.{
  ℕ, ◌^◌, ◌<◌, ◌≤◌, ◌≡◌, sym, ap, ◌∙◌, subst, true, Option, none, some, List, [], ◌∷◌, arith, find,
  ◌==◌, nat_eq, if◌then◌else◌,
}
use tunnelbridge.Prelude.Text.{Text, text_eq}
use tunnelbridge.Prelude.Result.{ok, err, >>=-eq-ok, >>-eq-ok, ok_injective}
use tunnelbridge.Net.{IpAddr}
use tunnelbridge.Protocol.{Uuid, DateTime, Tunnel, TunnelKind, TunnelStatus, CreateTunnelRequest}
use tunnelbridge.Server.Error.{not_found}
use tunnelbridge.Server.Config.{Config}
use tunnelbridge.Server.Db.{Db, TunnelRow, others, select_tunnel, delete_tunnel}
use tunnelbridge.Server.Tunnels.Rows.{Columns, tunnel_to_row, row_to_tunnel}
use tunnelbridge.Server.Tunnels.Rows.RoundTrip.{IsU16, row_to_tunnel-tunnel_to_row}
use tunnelbridge.Server.Tunnels.Validate.Laws.{IsEndpoint}
use tunnelbridge.Server.Db.Valid.{IsValid}
use tunnelbridge.Server.Tunnels.Store.Laws.{create-IsTunnel, create-IsValid, create_ok}
use tunnelbridge.Server.Tunnels.Store.{get, create, delete, check_owner, new_tunnel}

find-others :
    (id key : Text) (rs : List TunnelRow)
    → find (λ r. r.id == key) (others id rs)
      ≡ (if id == key then none else find (λ r. r.id == key) rs)
unfolding find others
find-others id key [] = ground arith
find-others id key (r ∷ rs) = ground (
  arith,
  find-others id key rs,
  text_eq.beq_iff r.id id,
  text_eq.beq_iff r.id key,
  text_eq.beq_iff id key,
)

-- The port of an endpoint of the pool is a 16-bit number.
pub endpoint-IsU16 :
    (config : Config) (kind : TunnelKind) (port : Option ℕ) (hostname : Option Text)
    → config.port_end < 2 ^ 16
    → IsEndpoint config kind port hostname
    → IsU16 port
endpoint-IsU16 config kind none hostname h e = tt
endpoint-IsU16 config TunnelKind.tcp (some p) none h e = omega arith
endpoint-IsU16 config TunnelKind.udp (some p) none h e = omega arith
endpoint-IsU16 config TunnelKind.tcp (some p) (some n) h e = absurd e
endpoint-IsU16 config TunnelKind.udp (some p) (some n) h e = absurd e
endpoint-IsU16 config TunnelKind.web (some p) hostname h e = absurd e

-- Identifiers are the same where their texts are.
uuid_text-== :
    (columns : Columns) (a b : Uuid) → (columns.uuid_text a == columns.uuid_text b) ≡ (a == b)
uuid_text-== columns a b = ground (
  arith,
  text_eq.beq_iff (columns.uuid_text a) (columns.uuid_text b),
  columns.parse-uuid_text a,
  columns.parse-uuid_text b,
)

module _ (columns : Columns) (db : Db) (id : Uuid) where
  -- When `delete` succeeds, no `get` finds the tunnel any more, and `get` of every other identifier
  -- answers as before.
  pub get-delete :
      (owner : Option Uuid) (db' : Db) (key : Uuid)
      → delete columns db id owner ≡ ok db'
      → get columns db' key ≡ (if id == key then err not_found else get columns db key)
  unfolding delete get delete_tunnel select_tunnel
  get-delete owner db' key h =
      let (t, found, h1) = >>=-eq-ok (get columns db id) _ h in
      let (mine, h2) = >>-eq-ok (check_owner owner t) _ h1 in
      subst (λ d. get columns d key ≡ (if id == key then err not_found else get columns db key))
        (ok_injective h2)
        (rw
          (
            find-others (columns.uuid_text id) (columns.uuid_text key) db.tunnels,
            uuid_text-== columns id key,
          )
          (ground arith))

  get_first :
      (row : TunnelRow) (rows : List TunnelRow)
      → row.id ≡ columns.uuid_text id
      → get columns (record db { tunnels = row ∷ rows }) id ≡ row_to_tunnel columns row
  unfolding get select_tunnel find
  get_first row rows e =
      let hit : (row.id == columns.uuid_text id) ≡ true =
        (text_eq.beq_iff row.id (columns.uuid_text id)).1 e in
      rw hit

  -- The tunnel that `create` returns is found under its identifier, with the status that its flag
  -- `enabled` gives, if the pool is a range that is not empty, the pool's end and the requested local
  -- port are 16-bit numbers, and the table satisfies its constraints.
  pub get-create :
      (parse_ip : Text → Option IpAddr) (config : Config) (now : DateTime) (agent_id : Uuid)
      (request : CreateTunnelRequest) (t : Tunnel) (db' : Db)
      → config.port_start ≤ config.port_end
      → config.port_end < 2 ^ 16
      → request.local_port < 2 ^ 16
      → IsValid db
      → create columns parse_ip config db id now agent_id request ≡ ok (t, db')
      → get columns db' id
        ≡ ok (record t {
          status = if t.enabled then TunnelStatus.starting else TunnelStatus.stopped;
        })
  unfolding new_tunnel tunnel_to_row
  get-create parse_ip config now agent_id request t db' range small local v created =
      let (valid, _, same, _) =
        create-IsTunnel columns parse_ip config db id now agent_id request t db' created range in
      let (_, table) =
        create-IsValid columns parse_ip config db id now agent_id request t db' created v in
      let (_, parts) = create_ok columns parse_ip config db id now agent_id request t db' created in
      let back =
        row_to_tunnel-tunnel_to_row columns t
          (subst (λ u. u.local_port < 2 ^ 16) (sym parts.4) local)
          (endpoint-IsU16 config t.kind t.remote_port t.hostname small valid.endpoint) in
      ap (λ d. get columns d id) table
      ∙ (get_first (tunnel_to_row columns t) db.tunnels (ap columns.uuid_text same) ∙ back)
