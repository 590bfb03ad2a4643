-- ===== src/Server/Devices.antt =====
-- server/src/api.rs: `revoke_device` and `delete_device_permanently`, with `audit`.
pub mod Revoked
use tunnelbridge.Prelude.{
  ℕ, Bool, true, false, not, Option, none, some, List, [], ◌∷◌, ◌++◌, ◌==◌, nat_eq, if◌then◌else◌,
  any, find, filter,
}
use tunnelbridge.Prelude.Text.{Text, text_eq, codes}
use tunnelbridge.Prelude.Map.{get, insert, remove}
use tunnelbridge.Prelude.Result.{Result, ok, err, ◌>>=◌, ok_or}
use tunnelbridge.Protocol.{Uuid, DateTime}
use tunnelbridge.Server.Error.{AppError, not_found, bad_request, internal, literal}
use tunnelbridge.Server.Db.{Db, DeviceRow, TunnelRow}
use tunnelbridge.Server.State.{AppState}
use tunnelbridge.Server.Headers.{Headers, delete}
use tunnelbridge.Server.Auth.{require_admin}
use tunnelbridge.Server.Listeners.{stop_listeners}
use tunnelbridge.Server.Tunnels.Rows.{Columns}

-- `audit`.
unfoldable pub audit : Columns → AppState → Text → Text → Text → DateTime → AppState
audit columns s action subject detail now = record s {
  db = record s.db {
    audit_log =
        record {
          action = action;
          subject = subject;
          detail = detail;
          created_at = columns.rfc3339 now;
        }
        ∷ s.db.audit_log;
  };
}

-- UPDATE devices SET revoked = 1 WHERE id = ?
unfoldable pub set_revoked : Text → List DeviceRow → List DeviceRow
set_revoked id [] = []
set_revoked id (d ∷ ds) =
    let rest = set_revoked id ds in (if d.id == id then record d { revoked = true } else d) ∷ rest

-- `if let Some((_, peer)) = state.agents.remove(&id) { peer.cancellation.cancel(); }`
pub disconnect : AppState → Uuid → AppState
disconnect s id = elim (get s.agents id) [
  | none ↦ s
  | some peer ↦
      let s' = record s { agents = remove s.agents id } in
      elim (get s.carriers peer.session_id) [
        | none ↦ s'
        | some c ↦ record s' {
          carriers = insert s.carriers peer.session_id (record c { cancelled = true });
        }
      ]
]

-- `Uuid::parse_str` of each row's identifier.
pub row_ids : Columns → List TunnelRow → Result AppError (List Uuid)
row_ids columns [] = ok []
row_ids columns (r ∷ rs) = do
  id ← ok_or (columns.parse_uuid r.id) internal
  ids ← row_ids columns rs
  ok (id ∷ ids)

module _ (columns : Columns) where
  -- `revoke_device` once the caller is an administrator.
  unfoldable pub revoke : AppState → Text → Uuid → DateTime → Result AppError (Unit {0}) × AppState
  unfolding set_revoked disconnect audit any
  revoke s username id now =
      if any (λ d. d.id == columns.uuid_text id) s.db.devices
      then (
        ok tt,
        audit columns
            (disconnect
              (record s {
                db = record s.db { devices = set_revoked (columns.uuid_text id) s.db.devices };
              })
              id)
            (codes "device.revoke") (columns.uuid_text id) (codes "revoked by " ++ username) now,
      )
      else (err not_found, s)

  unfoldable pub revoke_device :
      (Text → Option Text)
      → AppState
      → ℕ
      → Headers
      → Uuid
      → DateTime
      → Result AppError (Unit {0}) × AppState
  unfolding revoke
  revoke_device url_authority s instant headers id now =
      let (who, s') = require_admin url_authority s instant headers delete in
      elim who [ err e ↦ (err e, s') | ok (username, csrf) ↦ revoke s' username id now ]

  -- The two `DELETE`s of one transaction.
  unfoldable pub delete_rows : Db → Text → Db
  delete_rows db id = record db {
    tunnels = filter (λ t. not (t.agent_id == id)) db.tunnels;
    devices = filter (λ d. not (d.id == id)) db.devices;
  }

  -- What is left to do when the device is found to be revoked and its tunnels are known.
  unfoldable pub delete_revoked : AppState → Text → Uuid → List Uuid → DateTime → AppState
  unfolding delete_rows stop_listeners disconnect audit
  delete_revoked s username id tunnel_ids now =
      audit columns
        (disconnect
          (stop_listeners (record s { db = delete_rows s.db (columns.uuid_text id) }) tunnel_ids)
          id)
        (codes "device.delete") (columns.uuid_text id) (codes "permanently deleted by " ++ username)
        now

  -- The tests that come before the transaction, and the identifiers of the device's tunnels.
  pub deletable : Db → Uuid → Result AppError (List Uuid)
  unfolding row_ids find filter
  deletable db id = do
    device ← ok_or (find (λ d. d.id == columns.uuid_text id) db.devices) not_found
    let tunnel_ids = row_ids columns (filter (λ t. t.agent_id == columns.uuid_text id) db.tunnels)
    if device.revoked then tunnel_ids else err (bad_request (literal "请先撤销设备，再永久删除"))

  unfoldable pub delete_device_permanently :
      (Text → Option Text)
      → AppState
      → ℕ
      → Headers
      → Uuid
      → DateTime
      → Result AppError (Unit {0}) × AppState
  unfolding deletable delete_revoked
  delete_device_permanently url_authority s instant headers id now =
      let (who, s') = require_admin url_authority s instant headers delete in
      elim who [
        | err e ↦ (err e, s')
        | ok (username, csrf) ↦ elim (deletable s'.db id) [
          | err e ↦ (err e, s')
          | ok tunnel_ids ↦ (ok tt, delete_revoked s' username id tunnel_ids now)
        ]
      ]
