-- ===== src/Examples/Passwords.antt =====
-- The theorem on the change of the password, at values.
use tunnelbridge.Prelude.{
  ◌≡◌, ◌+◌, ℕ, refl, Bool, true, false, Option, none, some, List, [], ◌∷◌, ◌++◌, arith, ◌==◌,
}
use tunnelbridge.Prelude.Text.{Text, codes, text_eq}
use tunnelbridge.Prelude.Result.{ok, err}
use tunnelbridge.Net.{IpAddr, v4, SocketAddr}
use tunnelbridge.Server.Error.{unauthorized}
use tunnelbridge.Server.State.{AppState}
use tunnelbridge.Server.Headers.{Headers, get_method}
use tunnelbridge.Server.Auth.{require_admin, create_session}
use tunnelbridge.Server.Auth.Admin.{cookie_header}
use tunnelbridge.Server.Api.Login.{
  ChangePasswordRequest, change_password, login, signed_in, session_cookie,
}
use tunnelbridge.Server.Api.Password.{change_password_lem}
use tunnelbridge.Server.Api.Limit.{Attempt}
use tunnelbridge.Examples.Data.{columns, uri_authority, state, db, parse_ip}

-- A hash is the password behind one more character.
abbrev verify_password : Text → Text → Bool
verify_password hash password = hash == 42 ∷ password

abbrev hash_password : Text → Text → Option Text
hash_password salt password = some (42 ∷ password)

hash_password_lem :
    (salt password hash : Text)
    → hash_password salt password ≡ some hash
    → verify_password hash password ≡ true
hash_password_lem salt password hash h = ground (arith, text_eq.beq_iff hash (42 ∷ password))

abbrev digits : ℕ → Text
digits n = n ∷ []

abbrev print_ip : IpAddr → Text
print_ip ip = codes "9"

abbrev signed : AppState
unfolding create_session
signed =
    create_session
      (record state {
        db = record db {
          admins = record { username = codes "admin"; password_hash = 42 ∷ codes "old" } ∷ [];
        };
      })
      0 (codes "admin") (codes "id") (codes "csrf")

abbrev headers : Headers
headers = (codes "x-csrf-token", some (codes "csrf")) ∷ cookie_header (codes "id")

abbrev peer : SocketAddr
peer = record { ip = v4 9; port = 5000 }

abbrev request : ChangePasswordRequest
request = record { current_password = codes "old"; new_password = codes "correct horse" }

abbrev changed : AppState
changed =
    (change_password columns uri_authority verify_password hash_password signed 5 headers request []
      6).1

change_password_example :
    ((require_admin uri_authority changed 7 headers get_method).0 ≡ err unauthorized)
    × ((login columns verify_password digits parse_ip print_ip changed 7 peer []
          (record { username = codes "admin"; password = codes "correct horse" })
          (codes "new")
          (codes "token")
          8).0
        ≡ ok (
            signed_in
              (codes "admin")
              (codes "token")
              (session_cookie digits changed.config (codes "new"))))
unfolding require_admin tunnelbridge.Server.Auth.cookie_value tunnelbridge.Server.Headers.header
    tunnelbridge.Prelude.list_beq tunnelbridge.Prelude.Text.split
    tunnelbridge.Prelude.Text.split_once tunnelbridge.Prelude.Text.trim signed
    tunnelbridge.Prelude.Map.insert tunnelbridge.Server.Headers.is_safe
    tunnelbridge.Server.Auth.check_csrf tunnelbridge.Server.Auth.same_origin change_password
    tunnelbridge.Prelude.Text.utf8_len tunnelbridge.Server.Auth.login_allowed
    tunnelbridge.Server.Devices.audit
change_password_example =
    change_password_lem columns uri_authority verify_password hash_password signed 5 headers request
      [] 6 (codes "admin") (codes "csrf")
      (codes "tb_session=; Path=/; HttpOnly; SameSite=Strict; Max-Age=0; Secure") digits parse_ip
      print_ip 7 peer [] get_method (codes "new") (codes "token") 8 hash_password_lem refl refl refl

-- A login with a wrong password, at a time.
abbrev wrong_at : ℕ → Attempt
wrong_at at = record {
  at = at;
  peer = peer;
  headers = [];
  request = record { username = codes "admin"; password = codes "guess" };
  session_id = codes "id";
  csrf_token = codes "csrf";
  utc_at = at;
}

abbrev six : List Attempt
six = wrong_at 1 ∷ wrong_at 2 ∷ wrong_at 3 ∷ wrong_at 4 ∷ wrong_at 5 ∷ wrong_at 6 ∷ []
