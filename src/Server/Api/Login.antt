-- ===== src/Server/Api/Login.antt =====
-- server/src/api.rs: `login`, `logout`, `me` and `change_password`, with the cookies of
-- server/src/auth.rs and `parse_forwarded_ip` of server/src/gateway.rs. The new secrets, the salt and the
-- time are arguments. Argon2, the texts of addresses and the decimal digits are parameters. A cookie of
-- random characters is always a valid header value.
use tunnelbridge.Prelude.{
  ℕ, ◌/◌, Bool, false, Option, none, some, List, [], ◌∷◌, ◌++◌, find, ltb, ◌==◌, nat_eq,
  if◌then◌else◌,
}
use tunnelbridge.Prelude.Text.{Text, text_eq, codes, trim, split, utf8_len}
use tunnelbridge.Prelude.Map.{remove}
use tunnelbridge.Prelude.Result.{Result, ok, err}
use tunnelbridge.Net.{IpAddr, SocketAddr}
use tunnelbridge.Protocol.{DateTime}
use tunnelbridge.Server.Error.{AppError, unauthorized, bad_request, internal, literal}
use tunnelbridge.Server.Config.{Config}
use tunnelbridge.Server.Db.{Db, AdminRow}
use tunnelbridge.Server.State.{AppState}
use tunnelbridge.Server.Headers.{Headers, header, get_method, post, patch}
use tunnelbridge.Server.Auth.{login_allowed, create_session, remove_session, require_admin}
use tunnelbridge.Server.Devices.{audit}
use tunnelbridge.Server.Tunnels.Rows.{Columns}

pub record LoginRequest : Type 0 where
  pub username : Text
  pub password : Text

pub record ChangePasswordRequest : Type 0 where
  pub current_password : Text
  pub new_password : Text

-- The answers that set a cookie carry its text.
pub data LoginAnswer : Type 0 where
  rate_limited : LoginAnswer
  signed_in : (username csrf_token cookie : Text) → LoginAnswer

pub secure_text : Config → Text
secure_text config = if config.secure_cookies then codes "; Secure" else []

pub clear_session_cookie : Config → Text
unfolding secure_text
clear_session_cookie config =
    codes "tb_session=; Path=/; HttpOnly; SameSite=Strict; Max-Age=0" ++ secure_text config

-- `as_secs` of a duration in milliseconds is the quotient.
pub session_cookie : (ℕ → Text) → Config → Text → Text
unfolding secure_text
session_cookie digits config session_id =
    codes "tb_session="
    ++ (session_id
        ++ (codes "; Path=/; HttpOnly; SameSite=Strict; Max-Age="
            ++ (digits (config.session_ttl / 1000) ++ secure_text config)))

first_part : List Text → Option Text
first_part [] = none
first_part (part ∷ parts) = some part

and_parse_ip : (Text → Option IpAddr) → Option Text → Option IpAddr
and_parse_ip parse_ip none = none
and_parse_ip parse_ip (some t) = parse_ip (trim t)

unfoldable pub parse_forwarded_ip : (Text → Option IpAddr) → Option Text → Option IpAddr
unfolding first_part and_parse_ip
parse_forwarded_ip parse_ip none = none
parse_forwarded_ip parse_ip (some value) = and_parse_ip parse_ip (first_part (split b',' value))

-- The address that the limit on logins counts.
unfoldable pub rate_address : (Text → Option IpAddr) → Headers → SocketAddr → IpAddr
unfolding parse_forwarded_ip
rate_address parse_ip headers peer =
    let real : Option IpAddr = elim (header headers (codes "x-real-ip")) [
      | none ↦ none
      | some t ↦ parse_ip t
    ] in
    elim real [
      | some ip ↦ ip
      | none ↦ elim (parse_forwarded_ip parse_ip (header headers (codes "x-forwarded-for"))) [
        | some ip ↦ ip
        | none ↦ peer.ip
      ]
    ]

-- SELECT username, password_hash FROM admins WHERE username = ?
unfoldable pub select_admin : Db → Text → Option AdminRow
unfolding find
select_admin db username = find (λ r. r.username == username) db.admins

-- UPDATE admins SET password_hash = ? WHERE username = ?
unfoldable pub set_password : Text → Text → List AdminRow → List AdminRow
set_password hash username [] = []
set_password hash username (r ∷ rs) =
    let rest = set_password hash username rs in
    (if r.username == username then record r { password_hash = hash } else r) ∷ rest

module _ (columns : Columns) (verify_password : Text → Text → Bool) where
  -- `row.as_ref().is_some_and(…)`
  unfoldable pub is_valid : Db → LoginRequest → Bool
  unfolding select_admin
  is_valid db request = elim (select_admin db request.username) [
    | none ↦ false
    | some row ↦ verify_password row.password_hash request.password
  ]

  unfoldable pub login :
      (ℕ → Text)
      → (Text → Option IpAddr)
      → (IpAddr → Text)
      → AppState
      → ℕ
      → SocketAddr
      → Headers
      → LoginRequest
      → Text
      → Text
      → DateTime
      → Result AppError LoginAnswer × AppState
  unfolding rate_address is_valid session_cookie
  login digits parse_ip print_ip s now peer headers request session_id csrf_token utc_now =
      let key = print_ip (rate_address parse_ip headers peer) in
      let (allowed, s1) = login_allowed s now key in
      if allowed
      then if is_valid s1.db request
        then (
          ok (signed_in request.username csrf_token (session_cookie digits s.config session_id)),
          audit columns
              (create_session (record s1 { login_attempts = remove s1.login_attempts key }) now
                request.username session_id csrf_token)
              (codes "auth.login") request.username (codes "administrator signed in") utc_now,
        )
        else (
          err unauthorized,
          audit columns s1 (codes "auth.login_failed") request.username
              (codes "invalid credentials") utc_now,
        )
      else (ok rate_limited, s1)

module _ (columns : Columns) (uri_authority : Text → Option Text) where
  -- The result is the cookie that the answer sets.
  pub logout : AppState → ℕ → Headers → DateTime → Result AppError Text × AppState
  unfolding clear_session_cookie
  logout s now headers utc_now =
      let (who, s') = require_admin uri_authority s now headers post in
      elim who [
        | err e ↦ (err e, s')
        | ok (username, csrf) ↦ (
          ok (clear_session_cookie s.config),
          audit columns (remove_session s' headers) (codes "auth.logout") username
              (codes "administrator signed out") utc_now,
        )
      ]

  pub me : AppState → ℕ → Headers → Result AppError (Text × Text) × AppState
  me s now headers = require_admin uri_authority s now headers get_method

  module _ (verify_password : Text → Text → Bool) (hash_password : Text → Text → Option Text) where
    -- The checks of the request, and the new hash.
    unfoldable pub new_hash : Db → Text → ChangePasswordRequest → Text → Result AppError Text
    unfolding select_admin
    new_hash db username request salt =
        if ltb (utf8_len request.new_password) 12
        then err (bad_request (literal "new password must contain at least 12 characters"))
        else elim (select_admin db username) [
          | none ↦ err internal
          | some row ↦
              if verify_password row.password_hash request.current_password
              then elim (hash_password salt request.new_password) [
                | none ↦ err internal
                | some hash ↦ ok hash
              ]
              else err unauthorized
        ]

    unfoldable pub change_password :
        AppState
        → ℕ
        → Headers
        → ChangePasswordRequest
        → Text
        → DateTime
        → Result AppError Text × AppState
    unfolding new_hash set_password clear_session_cookie
    change_password s now headers request salt utc_now =
        let (who, s') = require_admin uri_authority s now headers patch in
        elim who [
          | err e ↦ (err e, s')
          | ok (username, csrf) ↦ elim (new_hash s'.db username request salt) [
            | err e ↦ (err e, s')
            | ok hash ↦
                let s1 = record s' {
                  db = record s'.db { admins = set_password hash username s'.db.admins };
                } in
                (
                  ok (clear_session_cookie s.config),
                  record (audit columns s1 (codes "auth.password_change") username
                      (codes "administrator password changed") utc_now) { sessions = [] },
                )
          ]
        ]
