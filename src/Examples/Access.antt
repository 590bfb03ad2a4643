-- ===== src/Examples/Access.antt =====
-- The theorems on sources, sessions, devices and carriers of the server, at values.
use tunnelbridge.Prelude.{
  ◌≡◌, ◌↔◌, ◌<◌, ◌≤◌, ◌⊎◌, inl, inr, ℕ, ◌++◌, ◌+◌, ◌*◌, ◌^◌, refl, Bool, true, false, Option, none,
  some, List, [], ◌∷◌, arith, All, In, length, find, any, nat_eq, if◌then◌else◌, nat_beq_iff,
}
use tunnelbridge.Prelude.Text.{Text, codes, text_eq}
use tunnelbridge.Prelude.Map.{get, insert}
use tunnelbridge.Prelude.Result.{ok}
use tunnelbridge.Protocol.{ActiveTransport}
use tunnelbridge.Server.Db.{DeviceRow}
use tunnelbridge.Server.State.{AppState}
use tunnelbridge.Server.Headers.{Method, get_method, post, delete, Headers, header}
use tunnelbridge.Server.Auth.{
  create_session, require_admin, authenticate_device_token, session_of, DeviceIdentity,
}
use tunnelbridge.Server.Auth.Admin.{
  Grants, require_admin_lem, cookie_header, create_session-require_admin,
}
use tunnelbridge.Server.Carrier.{attach_wss, attach_direct, detach}
use tunnelbridge.Server.Carrier.Reconnect.{attach-detach}
use tunnelbridge.Server.Devices.{revoke_device, delete_device_permanently}
use tunnelbridge.Server.Devices.Revoked.{
  AreWritten, revoked_device_is_refused, deleted_device_is_refused,
}
use tunnelbridge.Examples.Data.{columns, hash_token, uri_authority, state, db, laptop}

abbrev later : AppState
unfolding create_session
later = create_session state 0 (codes "admin") (codes "id") (codes "csrf")

require_admin_example :
    ((require_admin uri_authority later 5 (cookie_header (codes "id")) get_method).0
      ≡ ok (codes "admin", codes "csrf"))
    ↔ Grants uri_authority later 5
        (cookie_header (codes "id"))
        get_method
        (codes "admin")
        (codes "csrf")
require_admin_example =
    require_admin_lem uri_authority later 5 (cookie_header (codes "id")) get_method (codes "admin")
      (codes "csrf")

create_session_example :
    ((require_admin uri_authority
        (create_session state 0 (codes "admin") (codes "id") (codes "csrf"))
        9
        (cookie_header (codes "id"))
        get_method).0
      ≡ ok (codes "admin", codes "csrf"))
    × ((require_admin uri_authority
          (create_session state 0 (codes "admin") (codes "id") (codes "csrf"))
          9
          ((codes "x-csrf-token", some (codes "csrf")) ∷ cookie_header (codes "id"))
          post).0
        ≡ ok (codes "admin", codes "csrf"))
unfolding tunnelbridge.Server.Auth.Admin.is_secret tunnelbridge.Prelude.all
    tunnelbridge.Prelude.Text.is_whitespace
create_session_example =
    create_session-require_admin uri_authority state 0 9 (codes "admin") (codes "id") (codes "csrf")
      refl (omega arith)

attach-detach_example :
    (get (detach (attach_wss columns state 7 71 5) 7 70 ActiveTransport.quic).agents 7
      ≡ some (record { session_id = 71; transport = ActiveTransport.wss }))
    × (get
          (detach
            (attach_direct columns state 7 71 ActiveTransport.kcp 5)
            7
            70
            ActiveTransport.quic).agents
          7
        ≡ some (record { session_id = 71; transport = ActiveTransport.kcp }))
attach-detach_example =
    attach-detach columns state 7 70 71 ActiveTransport.kcp ActiveTransport.quic 5
      (λ e. omega arith)

abbrev admin_headers : Headers
admin_headers = (codes "x-csrf-token", some (codes "csrf")) ∷ cookie_header (codes "id")

-- Another device, which stays in the table.
abbrev phone : DeviceRow
phone = record laptop { id = 8 ∷ []; token_hash = hash_token (codes "other") }

abbrev two_devices : AppState
two_devices = record later { db = record db { devices = laptop ∷ phone ∷ [] } }

abbrev phone_identity : DeviceIdentity
phone_identity = record { id = 8; name = codes "laptop" }

two_written : AreWritten columns two_devices.db.devices
unfolding AreWritten columns
two_written d (inl same) = (7, rw same refl)
two_written d (inr (inl same)) = (8, rw same refl)
two_written d (inr (inr none_left)) = absurd none_left

abbrev half_revoked : AppState
half_revoked = record later {
  db = record db { devices = record laptop { revoked = true } ∷ phone ∷ [] };
}

half_written : AreWritten columns half_revoked.db.devices
unfolding AreWritten columns
half_written d (inl same) = (7, rw same refl)
half_written d (inr (inl same)) = (8, rw same refl)
half_written d (inr (inr none_left)) = absurd none_left

revoked_device_example : ¬ (phone_identity.id ≡ 7)
unfolding revoke_device require_admin tunnelbridge.Server.Auth.cookie_value header
    tunnelbridge.Prelude.list_beq tunnelbridge.Prelude.Text.split
    tunnelbridge.Prelude.Text.split_once tunnelbridge.Prelude.Text.trim later insert
    tunnelbridge.Server.Headers.is_safe tunnelbridge.Server.Auth.check_csrf
    tunnelbridge.Server.Auth.same_origin columns authenticate_device_token find
revoked_device_example =
    revoked_device_is_refused columns uri_authority hash_token two_devices 5 admin_headers 7 9
      (codes "other") phone_identity two_written refl refl

deleted_device_example : ¬ (phone_identity.id ≡ 7)
unfolding delete_device_permanently require_admin tunnelbridge.Server.Auth.cookie_value header
    tunnelbridge.Prelude.list_beq tunnelbridge.Prelude.Text.split
    tunnelbridge.Prelude.Text.split_once tunnelbridge.Prelude.Text.trim later insert
    tunnelbridge.Server.Headers.is_safe tunnelbridge.Server.Auth.check_csrf
    tunnelbridge.Server.Auth.same_origin columns authenticate_device_token
deleted_device_example =
    deleted_device_is_refused columns uri_authority hash_token half_revoked 5 admin_headers 7 9
      (codes "other") phone_identity half_written refl refl
