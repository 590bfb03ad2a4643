-- ===== src/Server/Cleanup.antt =====
-- server/src/api.rs: one round of `cleanup`. `before` is SQLite's `<` on two texts.
use tunnelbridge.Prelude.{ℕ, Bool, not, ltb, filter, nat_eq}
use tunnelbridge.Prelude.Text.{Text, text_eq}
use tunnelbridge.Prelude.Map.{retain}
use tunnelbridge.Server.State.{AppState}

unfoldable pub cleanup : (Text → Text → Bool) → AppState → ℕ → Text → AppState
cleanup before s now cutoff = record s {
  sessions = retain (λ id session. ltb now session.expires_at) s.sessions;
  pending = retain (λ id pending. ltb now pending.expires_at) s.pending;
  db = record s.db {
    audit_log = filter (λ r. not (before r.created_at cutoff)) s.db.audit_log;
    connection_history = filter (λ r. not (before r.closed_at cutoff)) s.db.connection_history;
  };
}
