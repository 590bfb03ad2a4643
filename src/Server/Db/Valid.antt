-- ===== src/Server/Db/Valid.antt =====
-- The constraints of the schema hold of every table that the statements make.
use tunnelbridge.Prelude.{
  ◌≡◌, refl, sym, subst, Bool, true, false, List, [], ◌∷◌, arith, any, find-All, All, ◌==◌, nat_eq,
  Option-cases, inl, inr,
}
use tunnelbridge.Prelude.Text.{Text, text_eq}
use tunnelbridge.Prelude.Result.{ok}
use tunnelbridge.Server.Db.{
  Db, TunnelRow, row_check, clash, has_device, others, insert_tunnel, update_row, update_tunnel,
  delete_tunnel, select_tunnel,
}

-- No two rows clash.
abbrev pub Distinct : List TunnelRow → Type 0
Distinct [] = Unit {0}
Distinct (r ∷ rs) = (any (clash r) rs ≡ false) × Distinct rs

-- The primary key, the indexes, the CHECK constraints and the foreign key of the table `tunnels`.
pub record IsValid (db : Db) : Type 0 where
  pub distinct : Distinct db.tunnels
  pub checked : All (λ r. row_check r ≡ true) db.tunnels
  pub owned : All (λ r. has_device db r.agent_id ≡ true) db.tunnels

module _ (id : Text) where
  any-others :
      (p : TunnelRow → Bool) (rs : List TunnelRow) → any p rs ≡ false → any p (others id rs) ≡ false
  unfolding any others
  any-others p [] h = refl
  any-others p (r ∷ rs) h = ground (arith, any-others p rs)

  Distinct-others : (rs : List TunnelRow) → Distinct rs → Distinct (others id rs)
  unfolding others
  Distinct-others [] h = tt
  Distinct-others (r ∷ rs) h = ground (arith, any-others (clash r) rs, Distinct-others rs h.1)

  All-others {ℓ} : (P : TunnelRow → Type ℓ) (rs : List TunnelRow) → All P rs → All P (others id rs)
  unfolding others
  All-others P [] h = tt
  All-others P (r ∷ rs) h = ground (arith, All-others P rs h.1)

pub delete_tunnel-IsValid : (db : Db) (id : Text) → IsValid db → IsValid (delete_tunnel db id)
unfolding delete_tunnel has_device
delete_tunnel-IsValid db id v = record {
  distinct = Distinct-others id db.tunnels v.distinct;
  checked = All-others id (λ r. row_check r ≡ true) db.tunnels v.checked;
  owned = All-others id (λ r. has_device db r.agent_id ≡ true) db.tunnels v.owned;
}

-- What a successful statement has checked, and what it leaves.
pub insert_tunnel_ok :
    (db db' : Db) (r : TunnelRow)
    → insert_tunnel db r ≡ ok db'
    → (row_check r ≡ true)
      × (any (clash r) db.tunnels ≡ false)
      × (has_device db r.agent_id ≡ true)
      × (db' ≡ record db { tunnels = r ∷ db.tunnels })
unfolding insert_tunnel
insert_tunnel_ok db db' r h = ground arith

pub insert_tunnel-IsValid :
    (db db' : Db) (r : TunnelRow) → insert_tunnel db r ≡ ok db' → IsValid db → IsValid db'
unfolding has_device
insert_tunnel-IsValid db db' r h v =
    let (check, unique, owner, e) = insert_tunnel_ok db db' r h in
    subst IsValid (sym e) (record {
      distinct = (unique, v.distinct);
      checked = (check, v.checked);
      owned = (owner, v.owned);
    })

pub update_row_ok :
    (db db' : Db) (old new : TunnelRow)
    → update_row db old new ≡ ok db'
    → (row_check new ≡ true)
      × (any (clash new) (others old.id db.tunnels) ≡ false)
      × (db' ≡ record db { tunnels = new ∷ others old.id db.tunnels })
unfolding update_row
update_row_ok db db' old new h = ground arith

update_row-IsValid :
    (db db' : Db) (old new : TunnelRow)
    → has_device db old.agent_id ≡ true
    → new.agent_id ≡ old.agent_id
    → update_row db old new ≡ ok db'
    → IsValid db
    → IsValid db'
unfolding has_device
update_row-IsValid db db' old new owner same h v =
    let (check, unique, e) = update_row_ok db db' old new h in
    let kept = delete_tunnel-IsValid db old.id v in
    subst IsValid (sym e) (record {
      distinct = (unique, Distinct-others old.id db.tunnels v.distinct);
      checked = (check, All-others old.id (λ r. row_check r ≡ true) db.tunnels v.checked);
      owned = (
        rw same owner,
        All-others old.id (λ r. has_device db r.agent_id ≡ true) db.tunnels v.owned,
      );
    })

pub update_tunnel-IsValid :
    (db db' : Db) (id : Text) (set_columns : TunnelRow → TunnelRow)
    → ((r : TunnelRow) → (set_columns r).agent_id ≡ r.agent_id)
    → update_tunnel db id set_columns ≡ ok db'
    → IsValid db
    → IsValid db'
unfolding update_tunnel select_tunnel
update_tunnel-IsValid db db' id set_columns same h v = elim (Option-cases (select_tunnel db id)) [
  | inl e ↦ ground (arith, e)
  | inr (r, e) ↦
      update_row-IsValid db db' r (set_columns r)
        (find-All (λ x. has_device db x.agent_id) (λ x. x.id == id) db.tunnels r v.owned e) (same r)
        (ground (arith, e)) v
]
