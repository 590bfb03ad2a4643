-- ===== src/Server/Udp/Counted.antt =====
-- The UDP sessions that the server counts, over every run of a listener.
use tunnelbridge.Prelude.{
  ℕ, ◌+◌, ◌^◌, ◌<◌, ◌≤◌, ◌≡◌, refl, ap, ◌∙◌, Bool, Bool-cases, Option-cases, inl, inr, some, List,
  [], ◌∷◌, length, nat_eq, arith, Eq,
}
use tunnelbridge.Prelude.Text.{Text}
use tunnelbridge.Prelude.Map.{Map, get, remove, insert}
use tunnelbridge.Prelude.Result.{Result-cases}
use tunnelbridge.Net.{IpAddr, IpNet, SocketAddr, socket_eq}
use tunnelbridge.Protocol.{Uuid, Tunnel, carrier_frame_datagram}
use tunnelbridge.Protocol.Frame.{UuidBytes, encode_carrier_frame}
use tunnelbridge.Server.State.{AppState, AgentPeer, count_rejected, count_failed, add_down}
use tunnelbridge.Server.Tunnels.Source.{source_allowed}
use tunnelbridge.Server.Gateway.Connection.{
  Draw, register, send_control, forget, await_virtual, activate,
}
use tunnelbridge.Server.Bridge.{send_binary}
use tunnelbridge.Server.Udp.{
  Sessions, sweep, close_all, drop_entries, forward, receive, resume, opened, ask_session, add_udp,
}
use tunnelbridge.Server.Udp.Sweep.{sweep_lem, Swept}

module _ {ℓ κ} {K : Type ℓ} {V : Type κ} ⦃e : Eq K⦄ where
  length-remove : (m : Map K V) (k : K) → length (remove m k) ≤ length m
  unfolding remove
  length-remove [] k = omega arith
  length-remove ((j, v) ∷ m) k = ground (arith, length-remove m k)

  length-remove_found :
      (m : Map K V) (k : K) (v : V) → get m k ≡ some v → length (remove m k) < length m
  unfolding remove get
  length-remove_found [] k v h = cc
  length-remove_found ((j, w) ∷ m) k v h =
      ground (arith, length-remove m k, length-remove_found m k v)

-- The counter covers the sessions of this listener and those of all others.
unfoldable pub Counts : ℕ → AppState × Sessions → Type 0
Counts others (s, sessions) =
    (length sessions + others ≤ s.counters.active_udp) × (s.counters.active_udp < 2 ^ 64)

module _ (contains : IpNet → IpAddr → Bool) (hash_token : Text → Text)
    (print_addr : SocketAddr → Text) (uuid : UuidBytes) (tunnel : Tunnel) where
  -- The turns of a listener, and what the rest of the server does in between: the other listeners
  -- change the counter along with their sessions.
  pub data Turn : ℕ → AppState × Sessions → ℕ → AppState × Sessions → Type 0 where
    tick : {k : ℕ} {s : AppState} {m : Sessions} (now : ℕ) → Turn k (s, m) k (sweep s now m)
    datagram :
        {k : ℕ} {s : AppState} {m : Sessions} (peer : SocketAddr) (bytes : List ℕ) (draw : Draw)
        → Turn k
            (s, m)
            k
            (
              (receive contains hash_token print_addr uuid s m tunnel peer bytes draw).1,
              (receive contains hash_token print_addr uuid s m tunnel peer bytes draw).2,
            )
    answer :
        {k : ℕ} {s : AppState} {m : Sessions} (peer : SocketAddr) (agent : AgentPeer)
        (bytes : List ℕ) (draw : Draw) (now : ℕ)
        → s.counters.active_udp + 1 < 2 ^ 64
        → Turn k
            (s, m)
            k
            (resume contains hash_token print_addr uuid s m tunnel peer agent bytes draw now)
    stop : {k : ℕ} {s : AppState} {m : Sessions} → Turn k (s, m) k (close_all s m, [])
    elsewhere :
        {k k' : ℕ} {s s' : AppState} {m : Sessions}
        → s'.counters.active_udp + k ≡ s.counters.active_udp + k'
        → s'.counters.active_udp < 2 ^ 64
        → Turn k (s, m) k' (s', m)

  -- What runs reach from a listener that has just started.
  pub data Reach : ℕ → AppState × Sessions → Type 0 where
    start :
        {k : ℕ} {s : AppState}
        → k ≤ s.counters.active_udp
        → s.counters.active_udp < 2 ^ 64
        → Reach k (s, [])
    step : {k k' : ℕ} {p p' : AppState × Sessions} → Reach k p → Turn k p k' p' → Reach k' p'

  -- A loss of entries, but not a change of the counter.
  Loses : AppState → Sessions → AppState × Sessions → Type 0
  Loses s m (s', m') = (length m' ≤ length m) × (s'.counters.active_udp ≡ s.counters.active_udp)

  send_binary_count :
      (s s' : AppState) (id : Uuid) (frame : List ℕ)
      → send_binary s id frame ≡ some s'
      → s'.counters ≡ s.counters
  unfolding send_binary
  send_binary_count s s' id frame h = ground arith

  forward-Loses :
      (s : AppState) (m : Sessions) (peer : SocketAddr) (id : Uuid) (bytes : List ℕ)
      → Loses s m (forward contains hash_token print_addr uuid s m tunnel peer id bytes)
  unfolding Loses forward add_down
  forward-Loses s m peer id bytes = elim (Option-cases (get s.agents tunnel.agent_id)) [
    | inl gone ↦ (ground (arith, gone), ground (arith, gone))
    | inr (agent, online) ↦
        let frame = encode_carrier_frame uuid carrier_frame_datagram id bytes in
        elim (Option-cases (send_binary s agent.session_id frame)) [
          | inl failed ↦
              (ground (arith, online, failed, length-remove m peer), ground (arith, online, failed))
          | inr (s', sent) ↦
              let same =
                ap (λ c. c.active_udp) (send_binary_count s s' agent.session_id frame sent) in
              (ground (arith, online, sent), ground (arith, online, sent, same))
        ]
  ]

  -- What a request leaves of the counter.
  ask_session_count :
      (s : AppState) (peer : SocketAddr) (draw : Draw)
      → (ask_session contains hash_token print_addr uuid s tunnel peer draw).1.counters ≡ s.counters
  unfolding ask_session send_control register
  ask_session_count s peer draw = ground arith

  receive-Loses :
      (s : AppState) (m : Sessions) (peer : SocketAddr) (bytes : List ℕ) (draw : Draw)
      → Loses s m (
        (receive contains hash_token print_addr uuid s m tunnel peer bytes draw).1,
        (receive contains hash_token print_addr uuid s m tunnel peer bytes draw).2,
      )
  unfolding Loses receive
  receive-Loses s m peer bytes draw = elim (Bool-cases (source_allowed contains tunnel peer.ip)) [
    | inr refused ↦ unfold count_rejected in (ground (arith, refused), ground (arith, refused))
    | inl allowed ↦ elim (Option-cases (get m peer)) [
      | inr (session, found) ↦
          let seen = insert m peer (record session { last_seen = draw.now }) in
          let (fewer, same) = forward-Loses s seen peer session.id bytes in
          let shorter = length-remove_found m peer session found in
          (
            unfold insert in ground (arith, allowed, found, fewer, shorter),
            ground (arith, allowed, found, same),
          )
      | inl new ↦
          let same = ap (λ c. c.active_udp) (ask_session_count s peer draw) in
          elim (Result-cases
            (ask_session contains hash_token print_addr uuid s tunnel peer draw).0) [
              | inl (agent, asked) ↦ (
                ground (arith, allowed, new, asked, same),
                ground (arith, allowed, new, asked, same),
              )
              | inr (e, failed) ↦
                  unfold count_failed in
                  (
                    ground (arith, allowed, new, failed, same),
                    ground (arith, allowed, new, failed, same),
                  )
            ]
    ]
  ]

  await_virtual_count : (s : AppState) (id : Uuid) → (await_virtual s id).1.counters ≡ s.counters
  unfolding await_virtual forget
  await_virtual_count s id = ground arith

  resume-Counts :
      (k : ℕ) (s : AppState) (m : Sessions) (peer : SocketAddr) (agent : AgentPeer) (bytes : List ℕ)
      (draw : Draw) (now : ℕ)
      → s.counters.active_udp + 1 < 2 ^ 64
      → Counts k (s, m)
      → Counts k (resume contains hash_token print_addr uuid s m tunnel peer agent bytes draw now)
  unfolding Counts Loses resume opened
  resume-Counts k s m peer agent bytes draw now room (h, h2) =
      let same = ap (λ c. c.active_udp) (await_virtual_count s draw.connection_id) in
      let s' = (await_virtual s draw.connection_id).1 in
      elim (Result-cases (await_virtual s draw.connection_id).0) [
        | inl (_, ready) ↦
            let s'' = activate (add_udp s') tunnel agent (print_addr peer) draw in
            let m' = insert m peer (record { id = draw.connection_id; last_seen = now }) in
            let (fewer, kept) = forward-Loses s'' m' peer draw.connection_id bytes in
            let more : s''.counters.active_udp ≡ s.counters.active_udp + 1 =
              unfold activate add_udp in rw same (omega (arith, room)) in
            (
              unfold insert in ground (arith, ready, fewer, kept, more, length-remove m peer),
              ground (arith, ready, kept, more, room),
            )
        | inr (e, failed) ↦
            unfold count_failed in (ground (arith, failed, same), ground (arith, failed, same))
      ]

  close_all_count : (s : AppState) (m : Sessions) → (close_all s m).counters ≡ s.counters
  unfolding close_all
  close_all_count s [] = refl
  close_all_count s ((peer, session) ∷ m) =
      close_all_count (drop_entries s session.id) m ∙ unfold drop_entries in refl

  Turn-Counts : {k k' : ℕ} {p p' : AppState × Sessions} → Turn k p k' p' → Counts k p → Counts k' p'
  unfolding Counts Loses Swept
  Turn-Counts (tick {k} {s} {m} now) (h, h2) =
      let (_, total, less, _) = sweep_lem s now m (omega arith) h2 in
      (omega (arith, total, h), omega (arith, less, h2))
  Turn-Counts (datagram {k} {s} {m} peer bytes draw) (h, h2) =
      let (fewer, same) = receive-Loses s m peer bytes draw in
      (omega (arith, fewer, same, h), omega (arith, same, h2))
  Turn-Counts (answer {k} {s} {m} peer agent bytes draw now room) h =
      resume-Counts k s m peer agent bytes draw now room h
  Turn-Counts (stop {k} {s} {m}) (h, h2) =
      let same = ap (λ c. c.active_udp) (close_all_count s m) in
      (omega (arith, same, h), omega (arith, same, h2))
  Turn-Counts (elsewhere same bound) (h, h2) = (omega (arith, same, h), bound)

  -- In every run of a UDP listener, in which the other listeners change the counter along with their
  -- `k` sessions and the counter has room for one more wherever a session is added, the counter of UDP
  -- sessions is at least the number of this listener's and of the others' sessions, and below
  -- 2 ^ 64. So a tick, which subtracts one for each session that it ends, never wraps around.
  pub Reach-Counts : {k : ℕ} {p : AppState × Sessions} → Reach k p → Counts k p
  unfolding Counts
  Reach-Counts (start h h2) = (omega arith, h2)
  Reach-Counts (step r turn) = Turn-Counts turn (Reach-Counts r)
