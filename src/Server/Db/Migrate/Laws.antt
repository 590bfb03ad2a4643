-- ===== src/Server/Db/Migrate/Laws.antt =====
-- The migration of server/src/db.rs keeps every tunnel and leaves a table that has its constraints.
use tunnelbridge.Prelude.{
  ◌≡◌, refl, ◌∙◌, none, some, Bool, true, false, ◌||◌, List, [], ◌∷◌, ◌++◌, map, any, All, arith,
  ◌==◌, nat_eq, list_beq, append_assoc, append-nil,
}
use tunnelbridge.Prelude.Text.{text_eq, codes}
use tunnelbridge.Prelude.Result.{ok}
use tunnelbridge.Server.Db.{Db, TunnelRow, row_check, clash, has_device}
use tunnelbridge.Server.Db.Valid.{IsValid, Distinct}
use tunnelbridge.Server.Db.Migrate.{
  TunnelV1Row, version1, version2, of_v1, insert_row, insert_all, unique_rows,
  create_tunnel_indexes, migrate_tunnels_v2,
}

-- The primary key and the unique column `remote_port` of the old table.
unfoldable pub clash1 : TunnelV1Row → TunnelV1Row → Bool
clash1 r s = (r.id == s.id) || (r.remote_port == s.remote_port)

abbrev pub Distinct1 : List TunnelV1Row → Type 0
Distinct1 [] = Unit {0}
Distinct1 (r ∷ rs) = (any (clash1 r) rs ≡ false) × Distinct1 rs

-- A row of the new table is the tunnel of an old row: the same identifier, device, name, target, access,
-- switch and times, its port as the public port of a TCP tunnel, and no hostname.
abbrev pub IsMigrated : TunnelV1Row → TunnelRow → Type 0
IsMigrated r u =
    (u.id ≡ r.id)
    × (u.agent_id ≡ r.agent_id)
    × (u.name ≡ r.name)
    × (u.local_host ≡ r.local_host)
    × (u.local_port ≡ r.local_port)
    × (u.kind ≡ codes "tcp")
    × (u.local_scheme ≡ codes "tcp")
    × (u.remote_port ≡ some r.remote_port)
    × (u.hostname ≡ none)
    × (u.access_mode ≡ r.access_mode)
    × (u.allowed_cidrs ≡ r.allowed_cidrs)
    × (u.enabled ≡ r.enabled)
    × (u.created_at ≡ r.created_at)
    × (u.updated_at ≡ r.updated_at)

-- The rows of the two tables correspond one to one, in their order.
abbrev pub AreMigrated : List TunnelV1Row → List TunnelRow → Type 0
AreMigrated [] [] = Unit {0}
AreMigrated (r ∷ rs) (u ∷ us) = IsMigrated r u × AreMigrated rs us
AreMigrated _ _ = ⊥

AreMigrated-of_v1 : (rs : List TunnelV1Row) → AreMigrated rs (map of_v1 rs)
unfolding of_v1
AreMigrated-of_v1 [] = tt
AreMigrated-of_v1 (r ∷ rs) = (
  (refl, refl, refl, refl, refl, refl, refl, refl, refl, refl, refl, refl, refl, refl),
  AreMigrated-of_v1 rs,
)

row_check-of_v1 : (r : TunnelV1Row) → row_check (of_v1 r) ≡ true
unfolding row_check of_v1 any list_beq
row_check-of_v1 r = refl

clash-of_v1 : (r s : TunnelV1Row) → clash (of_v1 r) (of_v1 s) ≡ clash1 r s
unfolding clash clash1 of_v1 list_beq
clash-of_v1 r s = ground arith

any-of_v1 :
    (r : TunnelV1Row) (rs : List TunnelV1Row)
    → any (clash (of_v1 r)) (map of_v1 rs) ≡ any (clash1 r) rs
unfolding any
any-of_v1 r [] = refl
any-of_v1 r (s ∷ rs) = ground (arith, any-of_v1 r rs, clash-of_v1 r s)

Distinct-of_v1 : (rs : List TunnelV1Row) → Distinct1 rs → Distinct (map of_v1 rs)
Distinct-of_v1 [] h = tt
Distinct-of_v1 (r ∷ rs) h = (rw (any-of_v1 r rs) h.0, Distinct-of_v1 rs h.1)

unique_rows_of_Distinct : (rows : List TunnelRow) → Distinct rows → unique_rows rows ≡ true
unfolding unique_rows
unique_rows_of_Distinct [] h = refl
unique_rows_of_Distinct (r ∷ rs) h = rw (h.0, unique_rows_of_Distinct rs h.1) refl

checked-of_v1 : (rs : List TunnelV1Row) → All (λ r. row_check r ≡ true) (map of_v1 rs)
checked-of_v1 [] = tt
checked-of_v1 (r ∷ rs) = (row_check-of_v1 r, checked-of_v1 rs)

abbrev pub Owned1 : Db → List TunnelV1Row → Type 0
Owned1 db rs = All (λ r. has_device db r.agent_id ≡ true) rs

owned-of_v1 :
    (db : Db) (rs : List TunnelV1Row)
    → Owned1 db rs
    → All (λ r. has_device db r.agent_id ≡ true) (map of_v1 rs)
unfolding of_v1
owned-of_v1 db [] h = tt
owned-of_v1 db (r ∷ rs) h = (h.0, owned-of_v1 db rs h.1)

any_middle :
    (p : TunnelV1Row → Bool) (xs : List TunnelV1Row) (r : TunnelV1Row) (ys : List TunnelV1Row)
    → any p (xs ++ r ∷ ys) ≡ false
    → p r ≡ false
unfolding any
any_middle p [] r ys h = ground arith
any_middle p (x ∷ xs) r ys h = any_middle p xs r ys (ground arith)

-- A row that follows others in a table has an identifier of its own.
new_id :
    (xs : List TunnelV1Row) (r : TunnelV1Row) (ys : List TunnelV1Row)
    → Distinct1 (xs ++ r ∷ ys)
    → any (λ s. (of_v1 r).id == TunnelRow.id s) (map of_v1 xs) ≡ false
unfolding any of_v1 clash1
new_id [] r ys h = refl
new_id (x ∷ xs) r ys h = ground (
  arith,
  new_id xs r ys h.1,
  any_middle (clash1 x) xs r ys h.0,
  text_eq.beq_iff x.id r.id,
  text_eq.beq_iff r.id x.id,
)

module _ (db : Db) where
  insert_row_ok :
      (xs : List TunnelV1Row) (r : TunnelV1Row) (ys : List TunnelV1Row)
      → Distinct1 (xs ++ r ∷ ys)
      → has_device db r.agent_id ≡ true
      → insert_row db (map of_v1 xs) (of_v1 r) ≡ ok (map of_v1 xs ++ of_v1 r ∷ [])
  unfolding insert_row of_v1
  insert_row_ok xs r ys h owner = rw (row_check-of_v1 r, new_id xs r ys h, owner) refl

  map-append1 :
      (xs : List TunnelV1Row) (r : TunnelV1Row)
      → map of_v1 xs ++ of_v1 r ∷ [] ≡ map of_v1 (xs ++ r ∷ [])
  map-append1 [] r = refl
  map-append1 (x ∷ xs) r = rw (map-append1 xs r) refl

  insert_all_ok :
      (xs ys : List TunnelV1Row)
      → Distinct1 (xs ++ ys)
      → Owned1 db ys
      → insert_all db (map of_v1 xs) (map of_v1 ys) ≡ ok (map of_v1 (xs ++ ys))
  unfolding insert_all
  insert_all_ok xs [] h owned = rw (append-nil xs) refl
  insert_all_ok xs (r ∷ ys) h owned =
      let rest = insert_all_ok (xs ++ r ∷ []) ys (rw (append_assoc xs (r ∷ []) ys) h) owned.1 in
      rw (insert_row_ok xs r ys h owned.0, map-append1 xs r)
        (rest ∙ rw (append_assoc xs (r ∷ []) ys) refl)

  -- If the rows of an old table have their own identifiers and ports, as its schema says, and every one
  -- belongs to a stored device, then the migration succeeds. Every row becomes, in its place, a TCP
  -- tunnel without hostname with the same identifier, device, name, local target, public port, access
  -- mode, networks, switch and times, and none is lost or added; the table satisfies the constraints of
  -- version 2; and the migration at a later start succeeds and changes nothing.
  pub migrate_lem :
      (old : List TunnelV1Row)
      → Distinct1 old
      → Owned1 db old
      → (rows : List TunnelRow) × (migrate_tunnels_v2 db (version1 old)
          ≡ (ok tt, version2 true rows))
        × AreMigrated old rows
        × IsValid (record db { tunnels = rows })
        × (migrate_tunnels_v2 db (version2 true rows) ≡ (ok tt, version2 true rows))
  unfolding migrate_tunnels_v2 create_tunnel_indexes has_device
  migrate_lem old h owned =
      let all : insert_all db [] (map of_v1 old) ≡ ok (map of_v1 old) =
        insert_all_ok [] old h owned in
      let distinct = Distinct-of_v1 old h in
      let unique = unique_rows_of_Distinct (map of_v1 old) distinct in
      let done : migrate_tunnels_v2 db (version1 old) ≡ (ok tt, version2 true (map of_v1 old)) =
        rw (migrate_tunnels_v2, all) (rw (create_tunnel_indexes, unique) refl) in
      (
        map of_v1 old,
        done,
        AreMigrated-of_v1 old,
        record {
          distinct = distinct;
          checked = checked-of_v1 old;
          owned = owned-of_v1 db old owned;
        },
        refl,
      )
