-- ===== src/Server/Tunnels/Queries.antt =====
-- server/src/tunnels.rs: the queries that list tunnels or look one up by its hostname.
pub mod Laws
use tunnelbridge.Prelude.{
  Bool, false, ◌&&◌, none, some, List, [], ◌∷◌, ◌==◌, nat_eq, find, filter, length,
}
use tunnelbridge.Prelude.Text.{Text, text_eq, codes, trim_end_matches, to_ascii_lowercase}
use tunnelbridge.Prelude.Result.{Result, ok, ◌>>=◌, ok_or}
use tunnelbridge.Protocol.{Uuid, Tunnel, kind_eq}
use tunnelbridge.Server.Error.{AppError, not_found}
use tunnelbridge.Server.Db.{Db, TunnelRow, order_by_created_at}
use tunnelbridge.Server.Tunnels.Rows.{Columns, row_to_tunnel}

-- `rows.into_iter().map(row_to_tunnel).collect()`
collect_tunnels : Columns → List TunnelRow → Result AppError (List Tunnel)
collect_tunnels columns [] = ok []
collect_tunnels columns (r ∷ rs) = do
  t ← row_to_tunnel columns r
  ts ← collect_tunnels columns rs
  ok (t ∷ ts)

-- kind = 'web' AND enabled = 1 AND lower(hostname) = lower(?)
serves : Text → TunnelRow → Bool
serves hostname r =
    r.kind == codes "web"
    && (r.enabled && elim r.hostname [
      | none ↦ false
      | some h ↦ to_ascii_lowercase h == to_ascii_lowercase hostname
    ])

module _ (columns : Columns) where
  unfoldable pub list_for_agent : Db → Uuid → Result AppError (List Tunnel)
  unfolding collect_tunnels
  list_for_agent db agent_id =
      collect_tunnels columns
        (order_by_created_at (filter (λ r. r.agent_id == columns.uuid_text agent_id) db.tunnels))

  pub list_all : Db → Result AppError (List Tunnel)
  unfolding collect_tunnels
  list_all db = collect_tunnels columns (order_by_created_at db.tunnels)

  pub get_by_hostname : Db → Text → Result AppError Tunnel
  unfolding serves
  get_by_hostname db hostname = do
    row ← ok_or (find (serves (trim_end_matches b'.' hostname)) db.tunnels) not_found
    row_to_tunnel columns row

pub hostname_is_enabled : Db → Text → Bool
unfolding serves
hostname_is_enabled db hostname =
    length (filter (serves (trim_end_matches b'.' hostname)) db.tunnels) == 1
