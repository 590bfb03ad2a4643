-- ===== src/Server/Devices/Revoked.antt =====
-- A device that is revoked or deleted by the handlers of server/src/api.rs, and the check of
-- `authenticate_device_token`.
use tunnelbridge.Prelude.{
  ◌≡◌, refl, ap, subst, ℕ, Bool, true, false, not, ◌&&◌, Option, some, List, [], ◌∷◌, arith, find,
  In, ◌==◌, Option-cases, inl, inr, Bool-cases, filter,
}
use tunnelbridge.Prelude.Text.{Text, text_eq}
use tunnelbridge.Prelude.Result.{Result-cases, ok}
use tunnelbridge.Protocol.{Uuid, DateTime}
use tunnelbridge.Server.Db.{Db, DeviceRow}
use tunnelbridge.Server.State.{AppState}
use tunnelbridge.Server.Headers.{Headers, delete}
use tunnelbridge.Server.Auth.Admin.{require_admin_db}
use tunnelbridge.Server.Auth.{require_admin, DeviceIdentity, authenticate_device_token}
use tunnelbridge.Server.Listeners.{stop_listener, stop_listeners}
use tunnelbridge.Server.Devices.{
  set_revoked, revoke, revoke_device, delete_device_permanently, deletable, audit, disconnect,
  delete_revoked, delete_rows,
}
use tunnelbridge.Server.Tunnels.Rows.{Columns}

find-In :
    (p : DeviceRow → Bool) (xs : List DeviceRow) (x : DeviceRow)
    → find p xs ≡ some x
    → In x xs × (p x ≡ true)
unfolding find
find-In p [] x h = cc
find-In p (y ∷ ys) x h = elim (Bool-cases (p y)) [
  | inl e ↦ (inl (ground arith), ground arith)
  | inr e ↦ let (i, q) = find-In p ys x (ground arith) in (inr i, q)
]

-- The stored row that vouches for an identity.
pub Vouches : Columns → (Text → Text) → List DeviceRow → Text → DeviceIdentity → Type 0
Vouches columns hash_token devices token who =
    (d : DeviceRow) × In d devices
    × (d.token_hash ≡ hash_token token)
    × (d.revoked ≡ false)
    × (columns.parse_uuid d.id ≡ some who.id)
    × (d.name ≡ who.name)

module _ (columns : Columns) (hash_token : Text → Text) where
  -- A token is accepted only for a device that stands in the table, is not revoked, and has the
  -- hash of the token; the identity is the one of its row.
  pub authenticate_device_token_sound :
      (db : Db) (token : Text) (who : DeviceIdentity)
      → authenticate_device_token columns hash_token db token ≡ ok who
      → Vouches columns hash_token db.devices token who
  unfolding authenticate_device_token Vouches
  authenticate_device_token_sound db token who h =
      elim (Option-cases
        (find (λ d. d.token_hash == hash_token token && not d.revoked) db.devices)) [
          | inl e ↦ absurd (ground arith)
          | inr (d, e) ↦
              let (i, q) =
                find-In (λ d. d.token_hash == hash_token token && not d.revoked) db.devices d e in
              elim (Option-cases (columns.parse_uuid d.id)) [
                | inl bad ↦ absurd (ground arith)
                | inr (id, good) ↦ (
                  d,
                  i,
                  ground (arith, text_eq.beq_iff d.token_hash (hash_token token)),
                  ground arith,
                  ground arith,
                  ground arith,
                )
              ]
        ]

-- Every identifier is one that the server has written.
unfoldable pub AreWritten : Columns → List DeviceRow → Type 0
AreWritten columns devices =
    (d : DeviceRow) → In d devices → (id : Uuid) × (d.id ≡ columns.uuid_text id)

module _ (columns : Columns) where
  set_revoked-In :
      (id : Text) (ds : List DeviceRow) (d : DeviceRow)
      → In d (set_revoked id ds)
      → d.revoked ≡ false
      → In d ds × (d.id == id ≡ false)
  unfolding set_revoked
  set_revoked-In id [] d i live = absurd i
  set_revoked-In id (x ∷ xs) d (inr i) live =
      let (j, n) = set_revoked-In id xs d i live in (inr j, n)
  set_revoked-In id (x ∷ xs) d (inl same) live = elim (Bool-cases (x.id == id)) [
    | inl e ↦ absurd (ground arith)
    | inr e ↦ (inl (rw e at same), rw (rw e at same) e)
  ]

  filter-In :
      (p : DeviceRow → Bool) (ds : List DeviceRow) (d : DeviceRow)
      → In d (filter p ds)
      → In d ds × (p d ≡ true)
  unfolding filter
  filter-In p [] d i = absurd i
  filter-In p (x ∷ xs) d i = elim (Bool-cases (p x)) [
    | inl e ↦ elim (rw e at i) [
      | inl same ↦ (inl same, rw same e)
      | inr j ↦ let (k, q) = filter-In p xs d j in (inr k, q)
    ]
    | inr e ↦ let (k, q) = filter-In p xs d (rw e at i) in (inr k, q)
  ]

  -- No row of the table is accepted under an identifier that no row carries.
  other_id :
      (hash_token : Text → Text) (devices rest : List DeviceRow) (token : Text)
      (who : DeviceIdentity) (id : Uuid)
      → AreWritten columns devices
      → ((d : DeviceRow)
          → In d rest
          → d.revoked ≡ false
          → In d devices × (d.id == columns.uuid_text id ≡ false))
      → Vouches columns hash_token rest token who
      → ¬ (who.id ≡ id)
  unfolding AreWritten Vouches
  other_id hash_token devices rest token who id written sub (d, i, digest, live, parsed, name)
        same =
      let (j, n) = sub d i live in
      let (u, w) = written d j in
      ground (
        arith,
        columns.parse-uuid_text u,
        text_eq.beq_iff d.id (columns.uuid_text id),
        ap columns.parse_uuid w,
        ap columns.uuid_text same,
      )

module _ (columns : Columns) where
  pub disconnect_db : (s : AppState) (id : Uuid) → (disconnect s id).db ≡ s.db
  unfolding disconnect
  disconnect_db s id = ground arith

  pub disconnect_config : (s : AppState) (id : Uuid) → (disconnect s id).config ≡ s.config
  unfolding disconnect
  disconnect_config s id = ground arith

  revoke_devices :
      (s : AppState) (username : Text) (id : Uuid) (now : DateTime)
      → (revoke columns s username id now).0 ≡ ok tt
      → (revoke columns s username id now).1.db.devices
        ≡ set_revoked (columns.uuid_text id) s.db.devices
  unfolding revoke audit
  revoke_devices s username id now h = ground (
    arith,
    disconnect_db
        (record s {
          db = record s.db { devices = set_revoked (columns.uuid_text id) s.db.devices };
        })
        id,
  )

  revoke_device_devices :
      (uri_authority : Text → Option Text) (s : AppState) (instant : ℕ) (headers : Headers)
      (id : Uuid) (now : DateTime)
      → (revoke_device columns uri_authority s instant headers id now).0 ≡ ok tt
      → (revoke_device columns uri_authority s instant headers id now).1.db.devices
        ≡ set_revoked (columns.uuid_text id) s.db.devices
  unfolding revoke_device
  revoke_device_devices uri_authority s instant headers id now h =
      elim (Result-cases (require_admin uri_authority s instant headers delete).0) [
        | inl ((username, csrf), e) ↦ ground (
          arith,
          require_admin_db uri_authority s instant headers delete,
          revoke_devices (require_admin uri_authority s instant headers delete).1 username id now,
        )
        | inr (e, failed) ↦ ground arith
      ]

  pub stop_listeners_db : (s : AppState) (ids : List Uuid) → (stop_listeners s ids).db ≡ s.db
  unfolding stop_listeners stop_listener
  stop_listeners_db s [] = refl
  stop_listeners_db s (id ∷ ids) = ground (arith, stop_listeners_db (stop_listener s id) ids)

  pub stop_listeners_config :
      (s : AppState) (ids : List Uuid) → (stop_listeners s ids).config ≡ s.config
  unfolding stop_listeners stop_listener
  stop_listeners_config s [] = refl
  stop_listeners_config s (id ∷ ids) =
      ground (arith, stop_listeners_config (stop_listener s id) ids)

  delete_revoked_devices :
      (s : AppState) (username : Text) (id : Uuid) (tunnel_ids : List Uuid) (now : DateTime)
      → (delete_revoked columns s username id tunnel_ids now).db.devices
        ≡ filter (λ d. not (d.id == columns.uuid_text id)) s.db.devices
  unfolding delete_revoked audit delete_rows
  delete_revoked_devices s username id tunnel_ids now = rw (disconnect_db, stop_listeners_db) refl

  delete_device_devices :
      (uri_authority : Text → Option Text) (s : AppState) (instant : ℕ) (headers : Headers)
      (id : Uuid) (now : DateTime)
      → (delete_device_permanently columns uri_authority s instant headers id now).0 ≡ ok tt
      → (delete_device_permanently columns uri_authority s instant headers id now).1.db.devices
        ≡ filter (λ d. not (d.id == columns.uuid_text id)) s.db.devices
  unfolding delete_device_permanently
  delete_device_devices uri_authority s instant headers id now h =
      let s' = (require_admin uri_authority s instant headers delete).1 in
      elim (Result-cases (require_admin uri_authority s instant headers delete).0) [
        | inl ((username, csrf), e) ↦ elim (Result-cases (deletable columns s'.db id)) [
          | inl (ids, e') ↦ ground (
            arith,
            ap (λ db. filter (λ d. not (d.id == columns.uuid_text id)) (Db.devices db))
                (require_admin_db uri_authority s instant headers delete),
            delete_revoked_devices s' username id ids now,
          )
          | inr (e', failed) ↦ ground arith
        ]
        | inr (e, failed) ↦ ground arith
      ]

  -- When `revoke_device` has answered with success for a device, no token is accepted as that
  -- device's any more: whom the device check accepts from then on has another identifier. The
  -- identifiers in the table are texts that the server has written.
  pub revoked_device_is_refused :
      (uri_authority : Text → Option Text) (hash_token : Text → Text) (s : AppState) (instant : ℕ)
      (headers : Headers) (id : Uuid) (now : DateTime) (token : Text) (who : DeviceIdentity)
      → AreWritten columns s.db.devices
      → (revoke_device columns uri_authority s instant headers id now).0 ≡ ok tt
      → authenticate_device_token columns hash_token
          (revoke_device columns uri_authority s instant headers id now).1.db
          token
        ≡ ok who
      → ¬ (who.id ≡ id)
  revoked_device_is_refused uri_authority hash_token s instant headers id now token who written done
        known =
      let s' = (revoke_device columns uri_authority s instant headers id now).1 in
      let devices = revoke_device_devices uri_authority s instant headers id now done in
      other_id columns hash_token s.db.devices s'.db.devices token who id written
        (λ d i live.
          set_revoked-In columns (columns.uuid_text id) s.db.devices d (subst (In d) devices i)
            live)
        (authenticate_device_token_sound columns hash_token s'.db token who known)

  -- The same for `delete_device_permanently`: once it has answered with success, no token is
  -- accepted as the device's, if the identifiers in the table are texts that the server has written.
  pub deleted_device_is_refused :
      (uri_authority : Text → Option Text) (hash_token : Text → Text) (s : AppState) (instant : ℕ)
      (headers : Headers) (id : Uuid) (now : DateTime) (token : Text) (who : DeviceIdentity)
      → AreWritten columns s.db.devices
      → (delete_device_permanently columns uri_authority s instant headers id now).0 ≡ ok tt
      → authenticate_device_token columns hash_token
          (delete_device_permanently columns uri_authority s instant headers id now).1.db
          token
        ≡ ok who
      → ¬ (who.id ≡ id)
  deleted_device_is_refused uri_authority hash_token s instant headers id now token who written done
        known =
      let s' = (delete_device_permanently columns uri_authority s instant headers id now).1 in
      let devices = delete_device_devices uri_authority s instant headers id now done in
      other_id columns hash_token s.db.devices s'.db.devices token who id written
        (λ d i live.
          let (j, n) =
            filter-In columns (λ d. not (d.id == columns.uuid_text id)) s.db.devices d
              (subst (In d) devices i) in
          (j, ground arith))
        (authenticate_device_token_sound columns hash_token s'.db token who known)
