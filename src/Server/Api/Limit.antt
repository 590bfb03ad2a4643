-- ===== src/Server/Api/Limit.antt =====
-- How many logins with a wrong password a source may try: server/src/api.rs, `login`.
use tunnelbridge.Prelude.{ℕ, suc, zero, ◌≡◌, Option, Bool, false, List, [], ◌∷◌}
use tunnelbridge.Prelude.Text.{Text, text_eq, codes}
use tunnelbridge.Prelude.Result.{Result, ok, err}
use tunnelbridge.Net.{IpAddr, SocketAddr}
use tunnelbridge.Protocol.{DateTime}
use tunnelbridge.Server.Error.{AppError, unauthorized}
use tunnelbridge.Server.Db.{Db}
use tunnelbridge.Server.State.{AppState, LoginWindow}
use tunnelbridge.Server.Headers.{Headers}
use tunnelbridge.Server.Auth.{set_window}
use tunnelbridge.Server.Auth.Limit.{Within}
use tunnelbridge.Server.Devices.{audit}
use tunnelbridge.Server.Tunnels.Rows.{Columns}
use tunnelbridge.Server.Api.Login.{
  LoginRequest, LoginAnswer, rate_limited, rate_address, is_valid, login,
}

-- A request to log in, with its time and what the handler draws.
pub record Attempt : Type 0 where
  pub at : ℕ
  pub peer : SocketAddr
  pub headers : Headers
  pub request : LoginRequest
  pub session_id : Text
  pub csrf_token : Text
  pub utc_at : DateTime

-- What the attempts are answered: so many are refused for their password, and the others by the limit.
abbrev pub refused_then_limited : ℕ → List Attempt → List (Result AppError LoginAnswer)
refused_then_limited n [] = []
refused_then_limited zero (a ∷ rest) = ok rate_limited ∷ refused_then_limited zero rest
refused_then_limited (suc n) (a ∷ rest) = err unauthorized ∷ refused_then_limited n rest

module _ (columns : Columns) (verify_password : Text → Text → Bool) (digits : ℕ → Text)
    (parse_ip : Text → Option IpAddr) (print_ip : IpAddr → Text) where
  unfoldable pub try_login : AppState → Attempt → Result AppError LoginAnswer × AppState
  try_login s a =
      login columns verify_password digits parse_ip print_ip s a.at a.peer a.headers a.request
        a.session_id a.csrf_token a.utc_at

  -- The answers to attempts that follow each other.
  pub answers : AppState → List Attempt → List (Result AppError LoginAnswer)
  unfolding try_login
  answers s [] = []
  answers s (a ∷ rest) = let (answer, s') = try_login s a in answer ∷ answers s' rest

  -- An attempt of the source, within a minute of the first one, with a wrong name or password.
  abbrev pub IsWrong : Db → Text → ℕ → Attempt → Type 0
  IsWrong db key start a =
      (print_ip (rate_address parse_ip a.headers a.peer) ≡ key)
      × Within start a.at
      × (is_valid columns verify_password db a.request ≡ false)

  -- The state after a wrong attempt that was counted.
  after_wrong : AppState → Text → LoginWindow → Attempt → AppState
  unfolding audit
  after_wrong s key w a =
      audit columns (set_window s key w) (codes "auth.login_failed") a.request.username
        (codes "invalid credentials") a.utc_at
