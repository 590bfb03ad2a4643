-- ===== src/Server/Auth.antt =====
-- server/src/auth.rs: administrator sessions, the limit on logins, and device tokens. Random secrets
-- and the time are arguments. `hash_token` (BLAKE3) and the authority of an origin (`http::Uri`) are
-- parameters.
pub mod Limit
pub mod Admin
use tunnelbridge.Prelude.{
  ℕ, ◌+◌, ◌-◌, Bool, true, false, not, ◌&&◌, Option, none, some, List, [], ◌∷◌, ◌++◌, ltb, leb,
  ◌==◌, nat_eq, find, if◌then◌else◌,
}
use tunnelbridge.Prelude.Text.{
  Text, text_eq, codes, trim, split, split_once, strip_prefix, to_ascii_lowercase,
}
use tunnelbridge.Prelude.Map.{get, insert, remove}
use tunnelbridge.Prelude.Result.{Result, ok, err, ◌>>=◌, ◌>>◌, ensure, ok_or}
use tunnelbridge.Protocol.{Uuid}
use tunnelbridge.Server.Error.{AppError, unauthorized, forbidden}
use tunnelbridge.Server.Db.{Db, DeviceRow}
use tunnelbridge.Server.Headers.{Headers, header, Method, is_safe}
use tunnelbridge.Server.State.{AppState, AdminSession, LoginWindow, session_expiry}
use tunnelbridge.Server.Tunnels.Rows.{Columns}

pub record DeviceIdentity : Type 0 where
  pub id : Uuid
  pub name : Text

unfoldable pub set_window : AppState → Text → LoginWindow → AppState
set_window s key window = record s { login_attempts = insert s.login_attempts key window }

-- The answer, and the state with the attempt counted.
unfoldable pub login_allowed : AppState → ℕ → Text → Bool × AppState
unfolding set_window
login_allowed s now key = elim (get s.login_attempts key) [
  | none ↦ (true, set_window s key (record { started_at = now; attempts = 1 }))
  | some window ↦
      if ltb 60000 (now - window.started_at)
      then (true, set_window s key (record { started_at = now; attempts = 1 }))
      else if leb 5 window.attempts
      then (false, s)
      else (true, set_window s key (record window { attempts = window.attempts + 1 }))
]

-- `session_id` and `csrf_token` are the two secrets.
unfoldable pub create_session : AppState → ℕ → Text → Text → Text → AppState
unfolding session_expiry
create_session s now username session_id csrf_token = record s {
  sessions = insert s.sessions session_id (record {
    username = username;
    csrf_token = csrf_token;
    expires_at = session_expiry now s.config.session_ttl;
  });
}

-- `parts.filter_map(|part| part.trim().split_once('=')).find_map(…)`
pub find_cookie : Text → List Text → Option Text
find_cookie name [] = none
find_cookie name (part ∷ parts) =
    let rest = find_cookie name parts in
    elim (split_once b'=' (trim part)) [
      | none ↦ rest
      | some (key, value) ↦ if key == name then some value else rest
    ]

unfoldable pub cookie_value : Headers → Text → Option Text
unfolding find_cookie
cookie_value headers name = elim (header headers (codes "cookie")) [
  | none ↦ none
  | some value ↦ find_cookie name (split b';' value)
]

abbrev pub session_of : Headers → Option Text
session_of headers = cookie_value headers (codes "tb_session")

pub remove_session : AppState → Headers → AppState
remove_session s headers = elim (session_of headers) [
  | none ↦ s
  | some id ↦ record s { sessions = remove s.sessions id }
]

-- The header `host`, or the empty text.
pub host_of : Headers → Text
host_of headers = elim (header headers (codes "host")) [ none ↦ [] | some host ↦ host ]

module _ (uri_authority : Text → Option Text) where
  -- The origin, where there is one, names the host that the request was sent to.
  unfoldable pub same_origin : Headers → Bool
  unfolding host_of
  same_origin headers = elim (header headers (codes "origin")) [
    | none ↦ true
    | some origin ↦ elim (uri_authority origin) [
      | none ↦ false
      | some authority ↦ to_ascii_lowercase authority == to_ascii_lowercase (host_of headers)
    ]
  ]

  -- The check of a request that changes something.
  unfoldable pub check_csrf : Headers → AdminSession → Result AppError (Unit {0})
  check_csrf headers session = do
    csrf ← ok_or (header headers (codes "x-csrf-token")) forbidden
    ensure (csrf == session.csrf_token) forbidden
    ensure (same_origin headers) forbidden

  pub check_session : Headers → Method → AdminSession → Result AppError (Text × Text)
  check_session headers method session =
      let done = ok (session.username, session.csrf_token) in
      if is_safe method then done else (check_csrf headers session >> done)

  -- The administrator's name and CSRF token. A session that has run out is removed.
  unfoldable pub require_admin :
      AppState → ℕ → Headers → Method → Result AppError (Text × Text) × AppState
  unfolding check_session
  require_admin s now headers method = elim (session_of headers) [
    | none ↦ (err unauthorized, s)
    | some id ↦ elim (get s.sessions id) [
      | none ↦ (err unauthorized, s)
      | some session ↦
          if leb session.expires_at now
          then (err unauthorized, record s { sessions = remove s.sessions id })
          else (check_session headers method session, s)
    ]
  ]

module _ (columns : Columns) (hash_token : Text → Text) where
  -- SELECT id, name FROM devices WHERE token_hash = ? AND revoked = 0 LIMIT 1
  unfoldable pub authenticate_device_token : Db → Text → Result AppError DeviceIdentity
  authenticate_device_token db token = do
    row ←
        ok_or (find (λ d. d.token_hash == hash_token token && not d.revoked) db.devices)
          unauthorized
    id ← ok_or (columns.parse_uuid row.id) unauthorized
    ok (record { id = id; name = row.name })

  unfoldable pub require_device : Db → Headers → Result AppError DeviceIdentity
  unfolding authenticate_device_token
  require_device db headers = do
    value ← ok_or (header headers (codes "authorization")) unauthorized
    token ← ok_or (strip_prefix (codes "Bearer ") value) unauthorized
    authenticate_device_token db token
