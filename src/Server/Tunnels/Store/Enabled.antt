-- ===== src/Server/Tunnels/Store/Enabled.antt =====
-- `update` of server/src/tunnels.rs with a request that sets `enabled` and nothing else.
use tunnelbridge.Prelude.{
  ◌≡◌, refl, sym, subst, ap, ◌∙◌, ◌⊎◌, inl, inr, ℕ, Bool, true, false, Option, some, none, List, [],
  ◌∷◌, arith, In, ◌==◌, nat_eq, Bool-cases, Option-cases, find_passes, ==_refl,
}
use tunnelbridge.Prelude.Text.{Text, text_eq}
use tunnelbridge.Prelude.Result.{ok}
use tunnelbridge.Net.{IpAddr}
use tunnelbridge.Protocol.{Uuid, DateTime, Tunnel}
use tunnelbridge.Server.Config.{Config}
use tunnelbridge.Server.Db.{Db, TunnelRow, others, select_tunnel, update_tunnel}
use tunnelbridge.Server.Db.Valid.{update_row_ok}
use tunnelbridge.Server.Tunnels.Rows.{Columns, row_to_tunnel}
use tunnelbridge.Server.Tunnels.Queries.Laws.{Has}
use tunnelbridge.Server.Tunnels.Edit.Enabled.{only, edit-only}
use tunnelbridge.Server.Tunnels.Store.{get, update, set_columns}
use tunnelbridge.Server.Tunnels.Store.Update.{update_ok}

pub In-others :
    (id : Text) (rs : List TunnelRow) (r : TunnelRow)
    → In r (others id rs)
    → In r rs × ((r.id == id) ≡ false)
unfolding others
In-others id [] r i = absurd i
In-others id (x ∷ xs) r i = elim (Bool-cases (x.id == id)) [
  | inl e ↦ let (k, q) = In-others id xs r (rw e at i) in (inr k, q)
  | inr e ↦ elim (rw e at i) [
    | inl same ↦ (inl same, rw same e)
    | inr j ↦ let (k, q) = In-others id xs r j in (inr k, q)
  ]
]

pub In-find :
    (p : TunnelRow → Bool) (rs : List TunnelRow) (r : TunnelRow)
    → tunnelbridge.Prelude.find p rs ≡ some r
    → In r rs
unfolding tunnelbridge.Prelude.find
In-find p [] r h = cc
In-find p (x ∷ xs) r h = elim (Bool-cases (p x)) [
  | inl e ↦ inl (ground arith)
  | inr e ↦ inr (In-find p xs r (ground arith))
]

module _ (columns : Columns) where
  -- The identifiers are texts that the server has written.
  unfoldable pub Written : List TunnelRow → Type 0
  Written rows = (r : TunnelRow) → In r rows → (id : Uuid) × (r.id ≡ columns.uuid_text id)

  row_read :
      (r : TunnelRow) (t : Tunnel)
      → row_to_tunnel columns r ≡ ok t
      → (columns.parse_uuid r.id ≡ some t.id) × (t.enabled ≡ r.enabled)
  unfolding row_to_tunnel
  row_read r t h = (ground arith, ground arith)

  pub get_row :
      (db : Db) (id : Uuid) (t : Tunnel)
      → get columns db id ≡ ok t
      → (row : TunnelRow) × (select_tunnel db (columns.uuid_text id) ≡ some row)
        × (row_to_tunnel columns row ≡ ok t)
  unfolding get
  get_row db id t h = elim (Option-cases (select_tunnel db (columns.uuid_text id))) [
    | inl gone ↦ absurd (ground (arith, gone))
    | inr (row, e) ↦ (row, e, ground (arith, e))
  ]

  pub select_id :
      (db : Db) (id : Uuid) (row : TunnelRow)
      → select_tunnel db (columns.uuid_text id) ≡ some row
      → row.id ≡ columns.uuid_text id
  unfolding select_tunnel
  select_id db id row h = ground (
    arith,
    find_passes (λ r. r.id == columns.uuid_text id) db.tunnels row h,
    text_eq.beq_iff row.id (columns.uuid_text id),
  )

  -- The number that a written row is read with.
  row_number :
      (row : TunnelRow) (t : Tunnel) (id : Uuid)
      → row_to_tunnel columns row ≡ ok t
      → row.id ≡ columns.uuid_text id
      → t.id ≡ id
  row_number row t id read same =
      let parsed = (row_read row t read).0 in
      cc (parsed, ap columns.parse_uuid same, columns.parse-uuid_text id)

  module _ (parse_ip : Text → Option IpAddr) (config : Config) (db db' : Db) (id : Uuid)
      (now : DateTime) (owner : Option Uuid) (enabled : Bool) (t' : Tunnel)
      (updated : update columns parse_ip config db id now owner (only enabled) ≡ ok (t', db')) where
    -- The row that was changed, and the table that is left.
    update_only :
        (row : TunnelRow) × In row db.tunnels
        × (row.id ≡ columns.uuid_text id)
        × (t'.enabled ≡ enabled)
        × (db' ≡ record db { tunnels = set_columns columns t' row ∷ others row.id db.tunnels })
    unfolding update_tunnel set_columns
    update_only =
        let (t, found, mine, edited, written) =
          update_ok columns db id parse_ip config now owner (only enabled) t' db' updated in
        let (same, wanted) = edit-only parse_ip config now enabled t t' edited in
        let (row, selected, read) = get_row db id t found in
        let row_id = select_id db id row selected in
        let number : t.id ≡ id = row_number row t id read row_id in
        let by_row : update_tunnel db (columns.uuid_text id) (set_columns columns t') ≡ ok db' =
          rw (same ∙ number) at written in
        (
          row,
          In-find (λ r. r.id == columns.uuid_text id) db.tunnels row
              (unfold select_tunnel in selected),
          row_id,
          wanted,
          (update_row_ok db db' row (set_columns columns t' row)
              (ground (arith, selected, by_row))).2,
        )

    pub update_only-devices : db'.devices ≡ db.devices
    update_only-devices = let (row, i, row_id, wanted, e) = update_only in ap Db.devices e

    pub update_only-Written : Written db.tunnels → Written db'.tunnels
    unfolding Written set_columns
    update_only-Written w r i =
        let (row, j, row_id, wanted, e) = update_only in
        elim (subst (λ (d : Db). In r d.tunnels) e i) [
          | inl same ↦ (id, ap TunnelRow.id same ∙ row_id)
          | inr k ↦ w r (In-others row.id db.tunnels r k).0
        ]

    -- A tunnel of the table afterwards has the wanted value, or it is another one and was there before.
    pub update_only-Has :
        (agent_id : Uuid) (u : Tunnel)
        → Written db.tunnels
        → Has columns db' agent_id u
        → (u.enabled ≡ enabled) ⊎ (¬ (u.id ≡ id) × Has columns db agent_id u)
    unfolding Written Has set_columns
    update_only-Has agent_id u w (r, i, mine, read) =
        let (row, j, row_id, wanted, e) = update_only in
        elim (subst (λ (d : Db). In r d.tunnels) e i) [
          | inl same ↦ inl ((row_read r u read).1 ∙ (ap TunnelRow.enabled same ∙ wanted))
          | inr k ↦
              let (l, other) = In-others row.id db.tunnels r k in
              let (x, text) = w r l in
              let number = row_number r u x read text in
              inr (
                λ bad. ground (
                  arith,
                  other,
                  text_eq.beq_iff r.id row.id,
                  text,
                  row_id,
                  ap columns.uuid_text (sym number ∙ bad),
                ),
                (r, l, mine, read),
              )
        ]
