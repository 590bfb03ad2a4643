-- ===== src/Server/Auth/Limit.antt =====
-- The window in which the attempts of one source are counted: server/src/auth.rs, `login_allowed`.
use tunnelbridge.Prelude.{ℕ, ◌+◌, ◌≤◌, ◌<◌, ◌≡◌, true, false, none, some, arith, ==_refl}
use tunnelbridge.Prelude.Text.{Text, text_eq}
use tunnelbridge.Prelude.Map.{get, get-insert}
use tunnelbridge.Server.State.{AppState, LoginWindow}
use tunnelbridge.Server.Auth.{set_window, login_allowed}

pub get-set_window :
    (s : AppState) (key : Text) (w : LoginWindow)
    → get (set_window s key w).login_attempts key ≡ some w
unfolding set_window
get-set_window s key w = rw (get-insert s.login_attempts key key w, ==_refl key)

abbrev pub Within : ℕ → ℕ → Type 0
Within start t = (start ≤ t) × (t ≤ start + 60000)

module _ (s : AppState) (key : Text) (start a t : ℕ)
    (window : get s.login_attempts key ≡ some (record { started_at = start; attempts = a }))
    (near : Within start t) where
  pub login_open :
      a < 5
      → login_allowed s t key
        ≡ (true, set_window s key (record { started_at = start; attempts = a + 1 }))
  unfolding login_allowed
  login_open h = ground (arith, window)

  pub login_full : 5 ≤ a → login_allowed s t key ≡ (false, s)
  unfolding login_allowed
  login_full h = ground (arith, window)

pub login_fresh :
    (s : AppState) (key : Text) (t : ℕ)
    → get s.login_attempts key ≡ none
    → login_allowed s t key ≡ (true, set_window s key (record { started_at = t; attempts = 1 }))
unfolding login_allowed
login_fresh s key t h = ground (arith, h)
