-- ===== src/Server/Tunnels/Queries/Laws.antt =====
-- What `list_for_agent` of server/src/tunnels.rs lists.
use tunnelbridge.Prelude.{
  ◌≡◌, refl, sym, ◌∙◌, subst, ◌⊎◌, inl, inr, Bool, true, List, [], ◌∷◌, In, filter, ◌==◌, nat_eq,
  Bool-cases,
}
use tunnelbridge.Prelude.Text.{text_eq}
use tunnelbridge.Prelude.Result.{ok, >>=-eq-ok, ok_injective}
use tunnelbridge.Protocol.{Uuid, Tunnel}
use tunnelbridge.Server.Db.{Db, TunnelRow, order_by_created_at, insert_by_created_at, text_le}
use tunnelbridge.Server.Tunnels.Rows.{Columns, row_to_tunnel}
use tunnelbridge.Server.Tunnels.Queries.{collect_tunnels, list_for_agent}

module _ (p : TunnelRow → Bool) where
  In-filter : (rs : List TunnelRow) (r : TunnelRow) → In r (filter p rs) → In r rs × (p r ≡ true)
  unfolding filter
  In-filter [] r i = absurd i
  In-filter (x ∷ xs) r i = elim (Bool-cases (p x)) [
    | inl e ↦ elim (rw e at i) [
      | inl same ↦ (inl same, rw same e)
      | inr j ↦ let (k, q) = In-filter xs r j in (inr k, q)
    ]
    | inr e ↦ let (k, q) = In-filter xs r (rw e at i) in (inr k, q)
  ]

  filter-In : (rs : List TunnelRow) (r : TunnelRow) → In r rs → p r ≡ true → In r (filter p rs)
  unfolding filter
  filter-In [] r i h = absurd i
  filter-In (x ∷ xs) r (inl same) h = rw (rw same at h) (inl same)
  filter-In (x ∷ xs) r (inr j) h = elim (Bool-cases (p x)) [
    | inl e ↦ rw e (inr (filter-In xs r j h))
    | inr e ↦ rw e (filter-In xs r j h)
  ]

-- The order keeps the rows.
In-insert :
    (x : TunnelRow) (rs : List TunnelRow) (r : TunnelRow)
    → In r (insert_by_created_at x rs)
    → (r ≡ x) ⊎ In r rs
unfolding insert_by_created_at
In-insert x [] r i = i
In-insert x (s ∷ rs) r i = elim (Bool-cases (text_le x.created_at s.created_at)) [
  | inl e ↦ rw e at i
  | inr e ↦ elim (rw e at i) [
    | inl same ↦ inr (inl same)
    | inr j ↦ elim (In-insert x rs r j) [ inl same ↦ inl same | inr k ↦ inr (inr k) ]
  ]
]

insert-In :
    (x : TunnelRow) (rs : List TunnelRow) (r : TunnelRow)
    → (r ≡ x) ⊎ In r rs
    → In r (insert_by_created_at x rs)
unfolding insert_by_created_at
insert-In x [] r i = i
insert-In x (s ∷ rs) r i = elim (Bool-cases (text_le x.created_at s.created_at)) [
  | inl e ↦ rw e i
  | inr e ↦ rw e (elim i [
    | inl same ↦ inr (insert-In x rs r (inl same))
    | inr j ↦ elim j [ inl same ↦ inl same | inr k ↦ inr (insert-In x rs r (inr k)) ]
  ])
]

In-order : (rs : List TunnelRow) (r : TunnelRow) → In r (order_by_created_at rs) → In r rs
unfolding order_by_created_at
In-order [] r i = i
In-order (x ∷ rs) r i = elim (In-insert x (order_by_created_at rs) r i) [
  | inl same ↦ inl same
  | inr j ↦ inr (In-order rs r j)
]

order-In : (rs : List TunnelRow) (r : TunnelRow) → In r rs → In r (order_by_created_at rs)
unfolding order_by_created_at
order-In [] r i = i
order-In (x ∷ rs) r (inl same) = insert-In x (order_by_created_at rs) r (inl same)
order-In (x ∷ rs) r (inr j) = insert-In x (order_by_created_at rs) r (inr (order-In rs r j))

module _ (columns : Columns) where
  -- The tunnels are those of the rows.
  collect_ok :
      (r : TunnelRow) (rs : List TunnelRow) (ts : List Tunnel)
      → collect_tunnels columns (r ∷ rs) ≡ ok ts
      → (t : Tunnel) × (us : List Tunnel) × (row_to_tunnel columns r ≡ ok t)
        × (collect_tunnels columns rs ≡ ok us)
        × (ts ≡ t ∷ us)
  unfolding collect_tunnels
  collect_ok r rs ts h =
      let (t, read, h1) = >>=-eq-ok (row_to_tunnel columns r) _ h in
      let (us, rest, h2) = >>=-eq-ok (collect_tunnels columns rs) _ h1 in
      (t, us, read, rest, sym (ok_injective h2))

  no_tunnels : (ts : List Tunnel) → collect_tunnels columns [] ≡ ok ts → ts ≡ []
  unfolding collect_tunnels
  no_tunnels ts h = cc

  In-collect :
      (rs : List TunnelRow) (ts : List Tunnel) (t : Tunnel)
      → collect_tunnels columns rs ≡ ok ts
      → In t ts
      → (r : TunnelRow) × In r rs × (row_to_tunnel columns r ≡ ok t)
  In-collect [] ts t h i = absurd (subst (In t) (no_tunnels ts h) i)
  In-collect (r ∷ rs) ts t h i =
      let (u, us, read, rest, e) = collect_ok r rs ts h in
      elim (subst (In t) e i) [
        | inl same ↦ (r, inl refl, rw same read)
        | inr j ↦ let (x, k, q) = In-collect rs us t rest j in (x, inr k, q)
      ]

  collect-In :
      (rs : List TunnelRow) (ts : List Tunnel) (r : TunnelRow) (t : Tunnel)
      → collect_tunnels columns rs ≡ ok ts
      → In r rs
      → row_to_tunnel columns r ≡ ok t
      → In t ts
  collect-In [] ts r t h i q = absurd i
  collect-In (x ∷ rs) ts r t h i q =
      let (u, us, read, rest, e) = collect_ok x rs ts h in
      subst (In t) (sym e) (elim i [
        | inl same ↦ inl (ok_injective (sym q ∙ rw same read))
        | inr j ↦ inr (collect-In rs us r t rest j q)
      ])

  -- The rows of an agent's device.
  unfoldable pub Has : Db → Uuid → Tunnel → Type 0
  Has db agent_id t =
      (r : TunnelRow) × In r db.tunnels
      × ((r.agent_id == columns.uuid_text agent_id) ≡ true)
      × (row_to_tunnel columns r ≡ ok t)

  module _ (db : Db) (agent_id : Uuid) (ts : List Tunnel)
      (listed : list_for_agent columns db agent_id ≡ ok ts) (t : Tunnel) where
    pub list_for_agent_sound : In t ts → Has db agent_id t
    unfolding list_for_agent Has
    list_for_agent_sound i =
        let (r, j, read) =
          In-collect
            (order_by_created_at
              (filter (λ r. r.agent_id == columns.uuid_text agent_id) db.tunnels))
            ts t listed i in
        let (k, mine) =
          In-filter (λ r. r.agent_id == columns.uuid_text agent_id) db.tunnels r
            (In-order (filter (λ r. r.agent_id == columns.uuid_text agent_id) db.tunnels) r j) in
        (r, k, mine, read)

    pub list_for_agent_complete : Has db agent_id t → In t ts
    unfolding list_for_agent Has
    list_for_agent_complete (r, i, mine, read) =
        collect-In
          (order_by_created_at (filter (λ r. r.agent_id == columns.uuid_text agent_id) db.tunnels))
          ts r t listed
          (order-In (filter (λ r. r.agent_id == columns.uuid_text agent_id) db.tunnels) r
            (filter-In (λ r. r.agent_id == columns.uuid_text agent_id) db.tunnels r i mine))
          read
