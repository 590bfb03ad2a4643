-- ===== src/Server/Api/Tables/Admin.antt =====
-- What the administrator's handlers of server/src/api.rs keep.
use tunnelbridge.Prelude.{
  refl, ap, ℕ, false, Option, none, List, ◌∷◌, ◌++◌, any, ◌||◌, ltb, length, ◌==◌, Bool-cases, inl,
  inr,
}
use tunnelbridge.Prelude.Text.{Text, text_eq, codes, is_empty, trim}
use tunnelbridge.Prelude.Result.{Result-cases}
use tunnelbridge.Net.{IpAddr}
use tunnelbridge.Protocol.{Uuid, DateTime, UpdateTunnelRequest}
use tunnelbridge.Server.Db.{Db, DeviceRow}
use tunnelbridge.Server.State.{AppState}
use tunnelbridge.Server.Headers
use tunnelbridge.Server.Headers.{Headers, patch, post}
use tunnelbridge.Server.Auth.{require_admin}
use tunnelbridge.Server.Config.{Config}
use tunnelbridge.Server.Devices.{
  set_revoked, revoke, revoke_device, delete_rows, delete_revoked, delete_device_permanently,
  deletable, disconnect, audit,
}
use tunnelbridge.Server.Listeners.{NewListener}
use tunnelbridge.Server.Devices.Revoked.{
  disconnect_db, stop_listeners_db, disconnect_config, stop_listeners_config,
}
use tunnelbridge.Server.Tunnels.Rows.{Columns}
use tunnelbridge.Server.Tunnels.Store.{update, delete, get}
use tunnelbridge.Server.Tunnels.Rows.RoundTrip.{IsU16}
use tunnelbridge.Server.Api.Status.{create_device}
use tunnelbridge.Server.Api.Handlers.{admin_update_tunnel, admin_delete_tunnel}
use tunnelbridge.Server.Api.Tables.{
  IsKept, On, carry, settle-On, settle_deleted-On, delete-On, as_admin-On,
}
use tunnelbridge.Server.Api.Tables.Rows.{KeepsDevices-set_revoked, KeepsDevices-cons}

module _ (columns : Columns) (parse_ip : Text → Option IpAddr) (P : Config → Db → Type 0)
    (kept : IsKept columns parse_ip P) where
  revoke-On :
      (s : AppState) (username : Text) (id : Uuid) (now : DateTime)
      → P s.config s.db
      → On columns parse_ip P kept (revoke columns s username id now).1
  unfolding revoke
  revoke-On s username id now p =
      elim (Bool-cases (any (λ d. d.id == columns.uuid_text id) s.db.devices)) [
        | inr e ↦ rw (revoke, e) p
        | inl e ↦
            let db' = record s.db { devices = set_revoked (columns.uuid_text id) s.db.devices } in
            let known = KeepsDevices-set_revoked s.db (columns.uuid_text id) in
            rw (revoke, e)
              (unfold audit in
                carry columns parse_ip P kept s.config db'
                  (audit columns (disconnect (record s { db = db' }) id) (codes "device.revoke")
                    (columns.uuid_text id) (codes "revoked by " ++ username) now)
                  (disconnect_config columns (record s { db = db' }) id)
                  (ap Db.tunnels (disconnect_db columns (record s { db = db' }) id))
                  (ap Db.devices (disconnect_db columns (record s { db = db' }) id))
                  (kept.same_tunnels s.config s.db db' refl known p))
      ]

  delete_revoked-On :
      (s : AppState) (username : Text) (id : Uuid) (ids : List Uuid) (now : DateTime)
      → P s.config s.db
      → On columns parse_ip P kept (delete_revoked columns s username id ids now)
  unfolding delete_revoked audit
  delete_revoked-On s username id ids now p =
      let db' = delete_rows columns s.db (columns.uuid_text id) in
      carry columns parse_ip P kept s.config db' (delete_revoked columns s username id ids now)
        (rw (disconnect_config columns, stop_listeners_config columns) refl)
        (rw (disconnect_db columns, stop_listeners_db columns) refl)
        (rw (disconnect_db columns, stop_listeners_db columns) refl)
        (kept.after_delete_rows s.config s.db (columns.uuid_text id) p)

  module _ (uri_authority : Text → Option Text) (s : AppState) (instant : ℕ) (headers : Headers)
      (p : P s.config s.db) where
    pub admin_update-On :
        (id : Uuid) (request : UpdateTunnelRequest) (listener : NewListener) (now : DateTime)
        → IsU16 request.local_port
        → On columns parse_ip P kept
            (admin_update_tunnel columns uri_authority parse_ip s instant headers id request
              listener now).1
    unfolding admin_update_tunnel
    admin_update-On id request listener now port =
        let s' = (require_admin uri_authority s instant headers patch).1 in
        let p' = as_admin-On columns parse_ip P kept uri_authority s instant headers patch p in
        elim (Result-cases (require_admin uri_authority s instant headers patch).0) [
          | inr (e, failed) ↦ rw (admin_update_tunnel, failed) p'
          | inl ((username, csrf), admitted) ↦
              elim (Result-cases (update columns parse_ip s'.config s'.db id now none request)) [
                | inr (e, failed) ↦ rw (admin_update_tunnel, admitted, failed) p'
                | inl ((t, db), e) ↦
                    rw (admin_update_tunnel, admitted, e)
                      (settle-On columns parse_ip P kept s' db t t.agent_id listener _ _ now
                        (kept.after_update s'.config s'.db db id now none request t port e p'))
              ]
        ]

    pub admin_delete-On :
        (id : Uuid) (now : DateTime)
        → On columns parse_ip P kept
            (admin_delete_tunnel columns uri_authority s instant headers id now).1
    unfolding admin_delete_tunnel
    admin_delete-On id now =
        let s' = (require_admin uri_authority s instant headers Headers.delete).1 in
        let p' =
          as_admin-On columns parse_ip P kept uri_authority s instant headers Headers.delete p in
        elim (Result-cases (require_admin uri_authority s instant headers Headers.delete).0) [
          | inr (e, failed) ↦ rw (admin_delete_tunnel, failed) p'
          | inl ((username, csrf), admitted) ↦ elim (Result-cases (get columns s'.db id)) [
            | inr (e, failed) ↦ rw (admin_delete_tunnel, admitted, failed) p'
            | inl (t, found) ↦ elim (Result-cases (delete columns s'.db id none)) [
              | inr (e, failed) ↦ rw (admin_delete_tunnel, admitted, found, failed) p'
              | inl (db, e) ↦
                  rw (admin_delete_tunnel, admitted, found, e)
                    (settle_deleted-On columns parse_ip P kept s' db id t.agent_id _ now
                      (delete-On columns parse_ip P kept s'.config s'.db db id none e p'))
            ]
          ]
        ]

    pub revoke_device-On :
        (id : Uuid) (now : DateTime)
        → On columns parse_ip P kept
            (revoke_device columns uri_authority s instant headers id now).1
    unfolding revoke_device
    revoke_device-On id now =
        let s' = (require_admin uri_authority s instant headers Headers.delete).1 in
        let p' =
          as_admin-On columns parse_ip P kept uri_authority s instant headers Headers.delete p in
        elim (Result-cases (require_admin uri_authority s instant headers Headers.delete).0) [
          | inr (e, failed) ↦ rw (revoke_device, failed) p'
          | inl ((username, csrf), admitted) ↦
              rw (revoke_device, admitted) (revoke-On s' username id now p')
        ]

    pub delete_device-On :
        (id : Uuid) (now : DateTime)
        → On columns parse_ip P kept
            (delete_device_permanently columns uri_authority s instant headers id now).1
    unfolding delete_device_permanently
    delete_device-On id now =
        let s' = (require_admin uri_authority s instant headers Headers.delete).1 in
        let p' =
          as_admin-On columns parse_ip P kept uri_authority s instant headers Headers.delete p in
        elim (Result-cases (require_admin uri_authority s instant headers Headers.delete).0) [
          | inr (e, failed) ↦ rw (delete_device_permanently, failed) p'
          | inl ((username, csrf), admitted) ↦ elim (Result-cases (deletable columns s'.db id)) [
            | inr (e, failed) ↦ rw (delete_device_permanently, admitted, failed) p'
            | inl (ids, e) ↦
                rw (delete_device_permanently, admitted, e)
                  (delete_revoked-On s' username id ids now p')
          ]
        ]

    pub create_device-On :
        (hash_token : Text → Text) (name : Text) (id : Uuid) (token : Text) (now : DateTime)
        → On columns parse_ip P kept
            (create_device columns uri_authority hash_token s instant headers name id token now).1
    unfolding create_device
    create_device-On hash_token name id token now =
        let s' = (require_admin uri_authority s instant headers post).1 in
        let p' = as_admin-On columns parse_ip P kept uri_authority s instant headers post p in
        elim (Result-cases (require_admin uri_authority s instant headers post).0) [
          | inr (e, failed) ↦ rw (create_device, failed) p'
          | inl ((username, csrf), admitted) ↦
              elim (Bool-cases (is_empty (trim name) || ltb 80 (length (trim name)))) [
                | inl e ↦ rw (create_device, admitted, e) p'
                | inr e ↦
                    let d : DeviceRow = record {
                      id = columns.uuid_text id;
                      name = trim name;
                      token_hash = hash_token token;
                      revoked = false;
                      last_seen_at = none;
                      created_at = columns.rfc3339 now;
                    } in
                    let db' = record s'.db { devices = d ∷ s'.db.devices } in
                    rw (create_device, admitted, e)
                      (unfold audit in
                        carry columns parse_ip P kept s'.config db'
                          (audit columns (record s' { db = db' }) (codes "device.create")
                            (columns.uuid_text id) (codes "created by " ++ username) now)
                          refl refl refl
                          (kept.same_tunnels s'.config s'.db db' refl (KeepsDevices-cons s'.db d)
                            p'))
              ]
        ]
