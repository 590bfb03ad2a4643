-- ===== src/Server/Db/Migrate.antt =====
-- server/src/db.rs: `migrate_tunnels_v2`, `create_tunnels_v2` and `create_tunnel_indexes`. The other
-- tables of `migrate` are created if they are not there, which `Db` takes for granted. The indexes of
-- the file on other columns change no result.
pub mod Laws
use tunnelbridge.Prelude.{
  ℕ, Bool, true, false, not, ◌&&◌, some, none, List, [], ◌∷◌, ◌++◌, map, any, ◌==◌,
}
use tunnelbridge.Prelude.Text.{Text, text_eq, codes}
use tunnelbridge.Prelude.Result.{Result, ok, err, ◌>>=◌, ◌>>◌, ensure}
use tunnelbridge.Server.Db.{
  Db, DbError, unique_violation, check_violation, foreign_key_violation, TunnelRow, row_check,
  clash, has_device,
}

-- A row of the table before version 2, with the columns that are copied.
pub record TunnelV1Row : Type 0 where
  pub id : Text
  pub agent_id : Text
  pub name : Text
  pub local_host : Text
  pub local_port : ℕ
  pub remote_port : ℕ
  pub access_mode : Text
  pub allowed_cidrs : Text
  pub enabled : Bool
  pub created_at : Text
  pub updated_at : Text

-- The table `tunnels` of a file: it is not there, it has no column `kind`, or it has the columns of
-- version 2, with the UNIQUE indexes or not yet with them. Rows stand in the order of insertion.
pub data TunnelsTable : Type 0 where
  absent : TunnelsTable
  version1 : List TunnelV1Row → TunnelsTable
  version2 : Bool → List TunnelRow → TunnelsTable

-- SELECT id, …, 'tcp', 'tcp', remote_port, NULL, … FROM tunnels_v1
unfoldable pub of_v1 : TunnelV1Row → TunnelRow
of_v1 r = record {
  id = r.id;
  agent_id = r.agent_id;
  name = r.name;
  local_host = r.local_host;
  local_port = r.local_port;
  kind = codes "tcp";
  local_scheme = codes "tcp";
  remote_port = some r.remote_port;
  hostname = none;
  access_mode = r.access_mode;
  allowed_cidrs = r.allowed_cidrs;
  enabled = r.enabled;
  created_at = r.created_at;
  updated_at = r.updated_at;
}

-- A row into the new table, which has its primary key, checks and foreign key, and no index yet.
unfoldable pub insert_row : Db → List TunnelRow → TunnelRow → Result DbError (List TunnelRow)
insert_row db rows r = do
  ensure (row_check r) check_violation
  ensure (not (any (λ s. r.id == s.id) rows)) unique_violation
  ensure (has_device db r.agent_id) foreign_key_violation
  ok (rows ++ r ∷ [])

-- INSERT INTO tunnels SELECT …
unfoldable pub insert_all : Db → List TunnelRow → List TunnelRow → Result DbError (List TunnelRow)
unfolding insert_row
insert_all db rows [] = ok rows
insert_all db rows (r ∷ rs) = insert_row db rows r >>= λ rows'. insert_all db rows' rs

-- No two rows clash; of the primary key the table has seen to already.
unfoldable pub unique_rows : List TunnelRow → Bool
unique_rows [] = true
unique_rows (r ∷ rs) = not (any (clash r) rs) && unique_rows rs

-- The UNIQUE indexes cannot be made over rows that clash, and stay where they are made.
unfoldable pub create_tunnel_indexes :
    Bool → List TunnelRow → Result DbError (Unit {0}) × TunnelsTable
create_tunnel_indexes true rows = (ok tt, version2 true rows)
create_tunnel_indexes false rows = elim (unique_rows rows) [
  | true ↦ (ok tt, version2 true rows)
  | false ↦ (err unique_violation, version2 false rows)
]

-- `db` gives the devices. When a statement of the transaction fails, the file is as before.
unfoldable pub migrate_tunnels_v2 : Db → TunnelsTable → Result DbError (Unit {0}) × TunnelsTable
unfolding create_tunnel_indexes
migrate_tunnels_v2 db absent = create_tunnel_indexes false []
migrate_tunnels_v2 db (version2 indexed rows) = create_tunnel_indexes indexed rows
migrate_tunnels_v2 db (version1 old) = elim (insert_all db [] (map of_v1 old)) [
  | err e ↦ (err e, version1 old)
  | ok rows ↦ create_tunnel_indexes false rows
]

-- The rows that the program sees.
abbrev pub rows_of : TunnelsTable → List TunnelRow
rows_of (version2 indexed rows) = rows
rows_of _ = []
