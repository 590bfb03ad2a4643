-- ===== src/Server/Db.antt =====
-- server/src/db.rs: the tables of the SQLite database, with the constraints that its schema states,
-- and the statements on `tunnels`. A table is a list of rows in no order that matters; a column of
-- type TEXT is a text and one of type INTEGER a number, since the program stores no negative one.
-- A statement fails on a constraint only: failures of the file or of the disk are not modelled.
use tunnelbridge.Prelude.{
  ℕ, Bool, true, false, not, ◌&&◌, ◌||◌, Option, none, some, List, [], ◌∷◌, any, find, ◌==◌, nat_eq,
  ltb, if◌then◌else◌,
}
use tunnelbridge.Prelude.Text.{Text, text_eq, codes, to_ascii_lowercase}
use tunnelbridge.Prelude.Map.{is_some}
use tunnelbridge.Prelude.Result.{Result, ok, err, ◌>>=◌, ◌>>◌, ensure}
pub mod Valid
pub mod Bootstrap
pub mod Migrate

pub record AdminRow : Type 0 where
  pub username : Text
  pub password_hash : Text

pub record DeviceRow : Type 0 where
  pub id : Text
  pub name : Text
  pub token_hash : Text
  pub revoked : Bool
  pub last_seen_at : Option Text
  pub created_at : Text

pub record AuditRow : Type 0 where
  pub action : Text
  pub subject : Text
  pub detail : Text
  pub created_at : Text

pub record HistoryRow : Type 0 where
  pub id : Text
  pub tunnel_id : Text
  pub peer_addr : Text
  pub opened_at : Text
  pub closed_at : Text
  pub bytes_up : ℕ
  pub bytes_down : ℕ

-- A row of the table that `TUNNELS_V2_SCHEMA` creates.
pub record TunnelRow : Type 0 where
  pub id : Text
  pub agent_id : Text
  pub name : Text
  pub local_host : Text
  pub local_port : ℕ
  pub kind : Text
  pub local_scheme : Text
  pub remote_port : Option ℕ
  pub hostname : Option Text
  pub access_mode : Text
  pub allowed_cidrs : Text
  pub enabled : Bool
  pub created_at : Text
  pub updated_at : Text

pub record Db : Type 0 where
  pub admins : List AdminRow
  pub devices : List DeviceRow
  pub tunnels : List TunnelRow
  pub audit_log : List AuditRow
  pub connection_history : List HistoryRow

pub data DbError : Type 0 where
  unique_violation check_violation foreign_key_violation : DbError

abbrev pub one_of : Text → List Text → Bool
one_of t = any (λ x. t == x)

-- CHECK ((kind IN ('tcp', 'udp') AND remote_port IS NOT NULL AND hostname IS NULL)
--   OR (kind = 'web' AND remote_port IS NULL AND hostname IS NOT NULL))
pub endpoint_check : Text → Option ℕ → Option Text → Bool
unfolding any
endpoint_check kind remote_port hostname =
    (one_of kind (codes "tcp" ∷ codes "udp" ∷ [])
      && (is_some remote_port && not (is_some hostname)))
    || (kind == codes "web" && (not (is_some remote_port) && is_some hostname))

-- The CHECK constraints of the table.
unfoldable pub row_check : TunnelRow → Bool
unfolding endpoint_check any
row_check r =
    one_of r.kind (codes "tcp" ∷ codes "udp" ∷ codes "web" ∷ [])
    && (one_of r.local_scheme (codes "tcp" ∷ codes "udp" ∷ codes "http" ∷ codes "https" ∷ [])
        && endpoint_check r.kind r.remote_port r.hostname)

-- Two NULLs are distinct in a UNIQUE index.
pub same_port : Option ℕ → Option ℕ → Bool
same_port (some a) (some b) = a == b
same_port _ _ = false

-- `lower` of SQLite changes the letters of ASCII only.
pub same_hostname : Option Text → Option Text → Bool
same_hostname (some a) (some b) = to_ascii_lowercase a == to_ascii_lowercase b
same_hostname _ _ = false

pub both : Text → TunnelRow → TunnelRow → Bool
both kind r s = r.kind == kind && s.kind == kind

-- The two rows cannot stand in the table together: the primary key and the indexes
-- `idx_tunnels_tcp_port`, `idx_tunnels_udp_port` and `idx_tunnels_hostname`.
pub clash : TunnelRow → TunnelRow → Bool
unfolding same_port same_hostname both
clash r s =
    r.id == s.id
    || ((both (codes "tcp") r s && same_port r.remote_port s.remote_port)
        || ((both (codes "udp") r s && same_port r.remote_port s.remote_port)
            || (both (codes "web") r s && same_hostname r.hostname s.hostname)))

-- agent_id TEXT NOT NULL REFERENCES devices(id)
unfoldable pub has_device : Db → Text → Bool
unfolding any
has_device db id = any (λ d. d.id == id) db.devices

-- The rows that another identifier has.
unfoldable pub others : Text → List TunnelRow → List TunnelRow
others id [] = []
others id (r ∷ rs) = let rest = others id rs in if r.id == id then rest else r ∷ rest

-- INSERT INTO tunnels
unfoldable pub insert_tunnel : Db → TunnelRow → Result DbError Db
insert_tunnel db r = do
  ensure (row_check r) check_violation
  ensure (not (any (clash r) db.tunnels)) unique_violation
  ensure (has_device db r.agent_id) foreign_key_violation
  ok (record db { tunnels = r ∷ db.tunnels })

-- SELECT * FROM tunnels WHERE id = ?
unfoldable pub select_tunnel : Db → Text → Option TunnelRow
unfolding find
select_tunnel db id = find (λ r. r.id == id) db.tunnels

pub update_row : Db → TunnelRow → TunnelRow → Result DbError Db
update_row db old new = do
  ensure (row_check new) check_violation
  ensure (not (any (clash new) (others old.id db.tunnels))) unique_violation
  ok (record db { tunnels = new ∷ others old.id db.tunnels })

-- UPDATE tunnels SET … WHERE id = ?, which changes nothing if no row has the identifier. No update
-- of the program sets `id` or `agent_id`.
unfoldable pub update_tunnel : Db → Text → (TunnelRow → TunnelRow) → Result DbError Db
unfolding update_row
update_tunnel db id set_columns = elim (select_tunnel db id) [
  | none ↦ ok db
  | some r ↦ update_row db r (set_columns r)
]

-- DELETE FROM tunnels WHERE id = ?
unfoldable pub delete_tunnel : Db → Text → Db
delete_tunnel db id = record db { tunnels = others id db.tunnels }

-- The order of two texts in SQLite.
unfoldable pub text_le : Text → Text → Bool
text_le [] t = true
text_le (a ∷ s) [] = false
text_le (a ∷ s) (b ∷ t) = let rest = text_le s t in ltb a b || (a == b && rest)

unfoldable pub insert_by_created_at : TunnelRow → List TunnelRow → List TunnelRow
unfolding text_le
insert_by_created_at r [] = r ∷ []
insert_by_created_at r (s ∷ rs) =
    let rest = insert_by_created_at r rs in
    if text_le r.created_at s.created_at then r ∷ s ∷ rs else s ∷ rest

-- ORDER BY created_at
unfoldable pub order_by_created_at : List TunnelRow → List TunnelRow
unfolding insert_by_created_at
order_by_created_at [] = []
order_by_created_at (r ∷ rs) = insert_by_created_at r (order_by_created_at rs)
