-- ===== src/Server/Auth/Admin.antt =====
-- Who passes `require_admin`.
use tunnelbridge.Prelude.{
  ℕ, ◌+◌, ◌<◌, ◌≤◌, ◌≡◌, refl, ◌↔◌, ◌⊎◌, Bool, true, not, ◌&&◌, all_and, list_beq, Option, none,
  some, [], ◌∷◌, ◌++◌, arith, all, leb, ◌==◌, ==_refl, Option-cases, inl, inr, nat_eq, Bool-cases,
}
use tunnelbridge.Prelude.Text.{Text, text_eq, codes, split, split_once, trim, is_whitespace}
use tunnelbridge.Prelude.Text.Parts.{split_none, trim_none}
use tunnelbridge.Prelude.Map.{get, get-insert, get-remove}
use tunnelbridge.Prelude.Result.{ok, err}
use tunnelbridge.Server.Error.{unauthorized}
use tunnelbridge.Server.Headers.{Headers, header, Method, is_safe}
use tunnelbridge.Server.State.{AppState, AdminSession}
use tunnelbridge.Server.Auth.{
  session_of, cookie_value, find_cookie, same_origin, check_csrf, check_session, require_admin,
  create_session,
}

module _ (uri_authority : Text → Option Text) (s : AppState) (now : ℕ) (headers : Headers)
    (method : Method) where
  -- A request with a cookie of a session that has not run out; if it changes something, it carries
  -- the session's CSRF token and comes from the host that it is sent to.
  pub record Grants (name csrf : Text) : Type 0 where
    pub id : Text
    pub session : AdminSession
    pub cookie : session_of headers ≡ some id
    pub known : get s.sessions id ≡ some session
    pub fresh : now < session.expires_at
    pub guarded :
        (is_safe method ≡ true)
        ⊎ ((header headers (codes "x-csrf-token") ≡ some session.csrf_token)
            × (same_origin uri_authority headers ≡ true))
    pub named : session.username ≡ name
    pub token : session.csrf_token ≡ csrf

  check_csrf_ok :
      (session : AdminSession)
      → (check_csrf uri_authority headers session ≡ ok tt) ↔ (
          (header headers (codes "x-csrf-token") ≡ some session.csrf_token)
          × (same_origin uri_authority headers ≡ true))
  unfolding check_csrf
  check_csrf_ok session = elim (Option-cases (header headers (codes "x-csrf-token"))) [
    | inl e ↦ (λ h. ground (arith, e), λ h. ground (arith, e))
    | inr (v, e) ↦ (
      λ h. ground (arith, e, text_eq.beq_iff v session.csrf_token),
      λ h. ground (arith, e, text_eq.beq_iff v session.csrf_token),
    )
  ]

  session_ok :
      (name csrf : Text) (session : AdminSession)
      → (check_session uri_authority headers method session ≡ ok (name, csrf)) ↔ (
          ((is_safe method ≡ true)
            ⊎ ((header headers (codes "x-csrf-token") ≡ some session.csrf_token)
                × (same_origin uri_authority headers ≡ true)))
          × (session.username ≡ name)
          × (session.csrf_token ≡ csrf))
  unfolding check_session
  session_ok name csrf session = (
    λ h. ground (arith, (check_csrf_ok session).0),
    λ h. ground (arith, (check_csrf_ok session).1),
  )

  -- `require_admin` lets a request pass, as this administrator and with this CSRF token, exactly if
  -- `Grants` holds.
  pub require_admin_lem :
      (name csrf : Text)
      → ((require_admin uri_authority s now headers method).0 ≡ ok (name, csrf)) ↔ Grants name csrf
  unfolding require_admin
  require_admin_lem name csrf = (
    λ h. elim (Option-cases (session_of headers)) [
      | inl none_e ↦ absurd (ground (arith, none_e))
      | inr (id, e) ↦ elim (Option-cases (get s.sessions id)) [
        | inl e2 ↦ absurd (ground (arith, e, e2))
        | inr (session, e2) ↦ elim (Bool-cases (leb session.expires_at now)) [
          | inl over ↦ absurd (ground (arith, e, e2, over))
          | inr fresh ↦
              let (guarded, named, token) =
                (session_ok name csrf session).0 (ground (arith, e, e2, fresh)) in
              record {
                id = id;
                session = session;
                cookie = e;
                known = e2;
                fresh = ground arith;
                guarded = guarded;
                named = named;
                token = token;
              }
        ]
      ]
    ],
    λ g. ground (arith, g.cookie, g.known, (session_ok name csrf g.session).1),
  )

  -- A request with the cookie of a session that has run out is refused, whatever its method, and the
  -- session is gone afterwards.
  expired_session :
      (id : Text) (session : AdminSession)
      → session_of headers ≡ some id
      → get s.sessions id ≡ some session
      → session.expires_at ≤ now
      → ((require_admin uri_authority s now headers method).0 ≡ err unauthorized)
        × (get (require_admin uri_authority s now headers method).1.sessions id ≡ none)
  unfolding require_admin
  expired_session id session cookie known over =
      ground (arith, cookie, known, get-remove s.sessions id id, ==_refl id)

-- The cookie that `session_cookie` sets, as a browser returns it.
abbrev pub cookie_header : Text → Headers
cookie_header id = (codes "cookie", some (codes "tb_session=" ++ id)) ∷ []

-- The characters of a secret of `random_secret`: URL-safe Base64 has neither `;` nor blanks.
unfoldable pub is_secret : Text → Bool
is_secret = all (λ c. not (c == b';') && not (is_whitespace c))

session_of_secret :
    (headers : Headers) (id : Text)
    → is_secret id ≡ true
    → header headers (codes "cookie") ≡ some (codes "tb_session=" ++ id)
    → session_of headers ≡ some id
unfolding is_secret cookie_value find_cookie
session_of_secret headers id h e =
    let (no_mark, no_blank) = all_and (λ c. not (c == b';')) (λ c. not (is_whitespace c)) id h in
    let whole = codes "tb_session=" ++ id in
    let parts : split b';' whole ≡ whole ∷ [] = split_none b';' whole (unfold all in no_mark) in
    let same : trim whole ≡ whole = trim_none whole (unfold all is_whitespace in no_blank) in
    let pair : split_once b'=' whole ≡ some (codes "tb_session", id) = unfold split_once in refl in
    let key : (codes "tb_session" == codes "tb_session") ≡ true = ==_refl (codes "tb_session") in
    ground (arith, e, parts, same, pair, key)

-- A session that was opened lets its administrator in until its time runs out, if its secret has
-- neither `;` nor blanks: a GET that brings the cookie back passes, and so does a POST that brings the
-- cookie and the session's CSRF token and names no origin.
pub create_session-require_admin :
    (uri_authority : Text → Option Text) (s : AppState) (now later : ℕ) (username id csrf : Text)
    → is_secret id ≡ true
    → later < now + s.config.session_ttl
    → let s' = create_session s now username id csrf in
      ((require_admin uri_authority s' later (cookie_header id) Method.get_method).0
        ≡ ok (username, csrf))
      × ((require_admin uri_authority s' later
            ((codes "x-csrf-token", some csrf) ∷ cookie_header id)
            Method.post).0
          ≡ ok (username, csrf))
unfolding create_session
create_session-require_admin uri_authority s now later username id csrf secret h =
    let s' = create_session s now username id csrf in
    let session : AdminSession = record {
      username = username;
      csrf_token = csrf;
      expires_at = now + s.config.session_ttl;
    } in
    let stored : get s'.sessions id ≡ some session = rw (get-insert s.sessions id id, ==_refl id) in
    let reader = cookie_header id in
    let writer : Headers = (codes "x-csrf-token", some csrf) ∷ cookie_header id in
    (
      (require_admin_lem uri_authority s' later reader Method.get_method username csrf).1 (record {
        id = id;
        session = session;
        cookie = session_of_secret reader id secret (unfold header get list_beq in refl);
        known = stored;
        fresh = h;
        guarded = inl (unfold is_safe in refl);
        named = refl;
        token = refl;
      }),
      (require_admin_lem uri_authority s' later writer Method.post username csrf).1 (record {
        id = id;
        session = session;
        cookie = session_of_secret writer id secret (unfold header get list_beq in refl);
        known = stored;
        fresh = h;
        guarded =
            inr
              (unfold header get list_beq in refl, unfold same_origin header get list_beq in refl);
        named = refl;
        token = refl;
      }),
    )

-- The check of an administrator leaves the database as it is.
pub require_admin_db :
    (uri_authority : Text → Option Text) (s : AppState) (now : ℕ) (headers : Headers)
    (method : Method)
    → (require_admin uri_authority s now headers method).1.db ≡ s.db
unfolding require_admin
require_admin_db uri_authority s now headers method = ground arith

-- And the configuration.
pub require_admin_config :
    (uri_authority : Text → Option Text) (s : AppState) (now : ℕ) (headers : Headers)
    (method : Method)
    → (require_admin uri_authority s now headers method).1.config ≡ s.config
unfolding require_admin
require_admin_config uri_authority s now headers method = ground arith
