-- ===== src/Server/Api/Password.antt =====
-- The change of the administrator's password.
use tunnelbridge.Prelude.{
  ℕ, ◌≡◌, refl, ap, ◌∙◌, Bool, true, Option, some, List, [], ◌∷◌, find, ltb, nat_eq, arith,
  Bool-cases, Option-cases, inl, inr,
}
use tunnelbridge.Prelude.Text.{Text, text_eq, utf8_len}
use tunnelbridge.Prelude.Map.{get}
use tunnelbridge.Prelude.Result.{ok, err, Result-cases}
use tunnelbridge.Net.{IpAddr, SocketAddr}
use tunnelbridge.Protocol.{DateTime}
use tunnelbridge.Server.Error.{unauthorized}
use tunnelbridge.Server.Db.{Db, AdminRow}
use tunnelbridge.Server.State.{AppState}
use tunnelbridge.Server.Headers.{Headers, Method, patch}
use tunnelbridge.Server.Auth.{login_allowed, require_admin, set_window}
use tunnelbridge.Server.Devices.{audit}
use tunnelbridge.Server.Tunnels.Rows.{Columns}
use tunnelbridge.Server.Api.Login.{
  LoginRequest, ChangePasswordRequest, signed_in, session_cookie, rate_address, select_admin,
  set_password, is_valid, login, new_hash, change_password,
}

-- The row that a user has after the change.
select-set_password :
    (db : Db) (rows : List AdminRow) (hash username : Text) (row : AdminRow)
    → select_admin (record db { admins = rows }) username ≡ some row
    → select_admin (record db { admins = set_password hash username rows }) username
      ≡ some (record row { password_hash = hash })
unfolding select_admin set_password find
select-set_password db [] hash username row h = cc
select-set_password db (r ∷ rs) hash username row h =
    ground (arith, select-set_password db rs hash username row)

module _ (uri_authority : Text → Option Text) where
  no_sessions :
      (s : AppState) (now : ℕ) (headers : Headers) (method : Method)
      → s.sessions ≡ []
      → (require_admin uri_authority s now headers method).0 ≡ err unauthorized
  unfolding require_admin get
  no_sessions s now headers method h = ground (arith, h)

login_allowed_db : (s : AppState) (now : ℕ) (key : Text) → (login_allowed s now key).1.db ≡ s.db
unfolding login_allowed set_window
login_allowed_db s now key = ground arith

module _ (columns : Columns) (uri_authority : Text → Option Text)
    (verify_password : Text → Text → Bool) (hash_password : Text → Text → Option Text) where
  -- What a change that succeeds leaves.
  Changed : AppState → Text → Text → AppState → Type 0
  Changed s username password s' =
      (s'.sessions ≡ [])
      × (hash : Text) × (salt : Text) × (row : AdminRow) × (hash_password salt password ≡ some hash)
      × (select_admin s'.db username ≡ some (record row { password_hash = hash }))

  new_hash_ok :
      (db : Db) (username salt hash : Text) (request : ChangePasswordRequest)
      → new_hash columns uri_authority verify_password hash_password db username request salt
        ≡ ok hash
      → (row : AdminRow) × (select_admin db username ≡ some row)
        × (hash_password salt request.new_password ≡ some hash)
  unfolding new_hash
  new_hash_ok db username salt hash request h =
      elim (Bool-cases (ltb (utf8_len request.new_password) 12)) [
        | inl short ↦ absurd (ground (arith, short))
        | inr long ↦ elim (Option-cases (select_admin db username)) [
          | inl gone ↦ absurd (ground (arith, long, gone))
          | inr (row, found) ↦
              elim (Bool-cases (verify_password row.password_hash request.current_password)) [
                | inr wrong ↦ absurd (ground (arith, long, found, wrong))
                | inl right ↦ elim (Option-cases (hash_password salt request.new_password)) [
                  | inl failed ↦ absurd (ground (arith, long, found, right, failed))
                  | inr (new, hashed) ↦
                      (row, found, hashed ∙ ap some (ground (arith, long, found, right, hashed)))
                ]
              ]
        ]
      ]

  change_password-Changed :
      (s : AppState) (now : ℕ) (headers : Headers) (request : ChangePasswordRequest) (salt : Text)
      (utc_now : DateTime) (username csrf cookie : Text)
      → (require_admin uri_authority s now headers patch).0 ≡ ok (username, csrf)
      → (change_password columns uri_authority verify_password hash_password s now headers request
          salt utc_now).0
        ≡ ok cookie
      → Changed s username request.new_password
          (change_password columns uri_authority verify_password hash_password s now headers request
            salt utc_now).1
  unfolding change_password Changed
  change_password-Changed s now headers request salt utc_now username csrf cookie who done =
      let s' = (require_admin uri_authority s now headers patch).1 in
      elim (Result-cases (
        new_hash columns uri_authority verify_password hash_password s'.db username request salt)) [
          | inr (e, failed) ↦ absurd (ground (arith, who, failed))
          | inl (hash, made) ↦
              let (row, found, hashed) = new_hash_ok s'.db username salt hash request made in
              (
                unfold audit in ground (arith, who, made),
                hash,
                salt,
                row,
                hashed,
                unfold audit in
                    ground (
                      arith,
                      who,
                      made,
                      select-set_password s'.db s'.db.admins hash username row found,
                    ),
              )
        ]

  is_valid_found :
      (db : Db) (request : LoginRequest) (row : AdminRow)
      → select_admin db request.username ≡ some row
      → verify_password row.password_hash request.password ≡ true
      → is_valid columns verify_password db request ≡ true
  unfolding is_valid
  is_valid_found db request row found right = ground (arith, found, right)

  -- After `change_password` has succeeded for an administrator, every request is unauthorized, whatever
  -- cookie it has, and a login with the new password, if the limit lets it try, succeeds. `hash_password`
  -- is taken to give only hashes that `verify_password` accepts for the same password.
  pub change_password_lem :
      (s : AppState) (now : ℕ) (headers : Headers) (request : ChangePasswordRequest) (salt : Text)
      (utc_now : DateTime) (username csrf cookie : Text) (digits : ℕ → Text)
      (parse_ip : Text → Option IpAddr) (print_ip : IpAddr → Text) (later : ℕ) (peer : SocketAddr)
      (headers' : Headers) (method : Method) (session_id csrf_token : Text) (utc_later : DateTime)
      → ((salt' password hash : Text)
          → hash_password salt' password ≡ some hash
          → verify_password hash password ≡ true)
      → (require_admin uri_authority s now headers patch).0 ≡ ok (username, csrf)
      → (change_password columns uri_authority verify_password hash_password s now headers request
          salt utc_now).0
        ≡ ok cookie
      → (login_allowed
          (change_password columns uri_authority verify_password hash_password s now headers request
            salt utc_now).1
          later
          (print_ip (rate_address parse_ip headers' peer))).0
        ≡ true
      → ((require_admin uri_authority
            (change_password columns uri_authority verify_password hash_password s now headers
              request salt utc_now).1
            later
            headers'
            method).0
          ≡ err unauthorized)
        × ((login columns verify_password digits parse_ip print_ip
              (change_password columns uri_authority verify_password hash_password s now headers
                request salt utc_now).1
              later
              peer
              headers'
              (record { username = username; password = request.new_password })
              session_id
              csrf_token
              utc_later).0
            ≡ ok (
                signed_in username csrf_token (
                  session_cookie digits
                    (change_password columns uri_authority verify_password hash_password s now
                      headers request salt utc_now).1.config
                    session_id)))
  unfolding Changed login
  change_password_lem s now headers request salt utc_now username csrf cookie digits parse_ip
        print_ip later peer headers' method session_id csrf_token utc_later law who done allowed =
      let s' =
        (change_password columns uri_authority verify_password hash_password s now headers request
          salt utc_now).1 in
      let (empty, hash, salt', row, hashed, found) =
        change_password-Changed s now headers request salt utc_now username csrf cookie who done in
      let same = login_allowed_db s' later (print_ip (rate_address parse_ip headers' peer)) in
      let accepted : is_valid columns verify_password s'.db
            (record { username = username; password = request.new_password })
          ≡ true =
        is_valid_found s'.db (record { username = username; password = request.new_password })
          (record row { password_hash = hash }) found
          (law salt' request.new_password hash hashed) in
      (no_sessions uri_authority s' later headers' method empty, rw (allowed, same, accepted) refl)
