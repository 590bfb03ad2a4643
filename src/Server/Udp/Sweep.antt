-- ===== src/Server/Udp/Sweep.antt =====
-- What the cleanup tick of a UDP listener does to the entries and the counter.
use tunnelbridge.Prelude.{
  ℕ, ◌+◌, ◌-◌, ◌^◌, ◌<◌, ◌≤◌, ◌≡◌, refl, Bool, not, ◌&&◌, Bool-cases, inl, inr, [], ◌∷◌, length,
  nat_eq, ◌==◌, arith, filter, any,
}
use tunnelbridge.Prelude.Map.{contains_key, contains_key-remove}
use tunnelbridge.Net.{SocketAddr}
use tunnelbridge.Protocol.{Uuid}
use tunnelbridge.Server.State.{AppState}
use tunnelbridge.Server.Udp.{Session, Sessions, keep, sweep, sub_udp, drop_entries}

-- Whether the session of an identifier is one that a tick ends.
pub ends_id : ℕ → ℕ → Uuid → SocketAddr × Session → Bool
ends_id timeout now id (peer, session) = not (keep timeout now session) && session.id == id

sub_udp_lem :
    (s : AppState)
    → 1 ≤ s.counters.active_udp
    → s.counters.active_udp < 2 ^ 64
    → (sub_udp s).counters.active_udp ≡ s.counters.active_udp - 1
unfolding sub_udp
sub_udp_lem s h h2 = omega arith

unfoldable pub Swept : ℕ → AppState → Sessions → AppState × Sessions → Type 0
Swept now s sessions (s', kept) =
    (kept ≡ filter (λ e. keep s.config.udp_session_timeout now e.1) sessions)
    × (s'.counters.active_udp + length sessions ≡ s.counters.active_udp + length kept)
    × (s'.counters.active_udp ≤ s.counters.active_udp)
    × ((id : Uuid)
        → (contains_key s'.streams id ≡ (
            contains_key s.streams id
            && not (any (ends_id s.config.udp_session_timeout now id) sessions)))
          × (contains_key s'.active id ≡ (
              contains_key s.active id
              && not (any (ends_id s.config.udp_session_timeout now id) sessions))))

pub sweep_lem :
    (s : AppState) (now : ℕ) (sessions : Sessions)
    → length sessions ≤ s.counters.active_udp
    → s.counters.active_udp < 2 ^ 64
    → Swept now s sessions (sweep s now sessions)
unfolding Swept sweep filter any ends_id sub_udp drop_entries
sweep_lem s now [] h h2 = (refl, refl, omega arith, λ id. (ground arith, ground arith))
sweep_lem s now ((peer, session) ∷ rest) h h2 =
    elim (Bool-cases (keep s.config.udp_session_timeout now session)) [
      | inl lives ↦
          let (kept, total, less, entries) = sweep_lem s now rest (omega arith) h2 in
          (
            ground (arith, lives, kept),
            ground (arith, lives, total),
            ground (arith, lives, less),
            λ id. (ground (arith, lives, entries id), ground (arith, lives, entries id)),
          )
      | inr over ↦
          let fewer = sub_udp_lem s (omega arith) h2 in
          let (kept, total, less, entries) =
            sweep_lem (sub_udp (drop_entries s session.id)) now rest (omega (arith, fewer))
              (omega (arith, fewer)) in
          (
            ground (arith, over, kept),
            ground (arith, over, total, fewer),
            ground (arith, over, less, fewer),
            λ id. (
              ground (arith, over, entries id, contains_key-remove s.streams session.id id),
              ground (arith, over, entries id, contains_key-remove s.active session.id id),
            ),
          )
    ]
