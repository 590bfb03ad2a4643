-- ===== src/Server/Gateway/Steps/Cleared.antt =====
-- Which steps of Gateway/Steps make a connection of server/src/gateway.rs active, or put an acceptance on
-- record.
use tunnelbridge.Prelude.{
  ℕ, ◌≡◌, refl, subst, sym, ◌∙◌, ◌⊎◌, inl, inr, Bool, true, false, ◌||◌, Option, none, some, arith,
  nat_eq, nat_beq_iff, Option-cases, Bool-cases, List, if◌then◌else◌,
}
use tunnelbridge.Prelude.Text.{Text}
use tunnelbridge.Prelude.Map.{
  get, contains_key, contains_key-insert, contains_key-remove, get-insert, get-remove,
}
use tunnelbridge.Prelude.Result.{ok}
use tunnelbridge.Net.{IpAddr, IpNet, SocketAddr}
use tunnelbridge.Protocol.{Uuid, DateTime, Tunnel}
use tunnelbridge.Protocol.Frame.{UuidBytes}
use tunnelbridge.Server.State.{AppState, AgentPeer, AckResult, count_rejected, count_failed}
use tunnelbridge.Server.Tunnels.Rows.{Columns}
use tunnelbridge.Server.Tunnels.Source.{source_allowed}
use tunnelbridge.Server.Cleanup.{cleanup}
use tunnelbridge.Server.Gateway.Ack.{Redeems, acknowledge_connection_lem}
use tunnelbridge.Server.Gateway.Connection.{
  Draw, forget, accept_connection, accept_virtual, acknowledge_connection, await_connection,
  await_virtual, activate, close_connection, close_virtual, route_carrier_frame, refusal,
}
use tunnelbridge.Server.Gateway.Steps.{
  Step, accept, accept_web, acknowledge, answered, refused, refused_web, close, close_web, frame,
  expire, elsewhere,
}
use tunnelbridge.Server.Gateway.Steps.Follows.{ask_maps}

-- An answer that accepts.
unfoldable pub accepts : Option AckResult → Bool
accepts (some none) = true
accepts _ = false

-- A connection is bridged, or its agent's acceptance is on record.
unfoldable pub cleared : AppState → Uuid → Bool
unfolding accepts
cleared s id = contains_key s.active id || accepts (get s.acks id)

cleared_same :
    (s s' : AppState) (id : Uuid)
    → s'.acks ≡ s.acks
    → s'.active ≡ s.active
    → cleared s' id ≡ cleared s id
unfolding cleared
cleared_same s s' id a c = rw (a, c) refl

module _ (contains : IpNet → IpAddr → Bool) (hash_token : Text → Text)
    (print_addr : SocketAddr → Text) (columns : Columns) (uuid : UuidBytes)
    (before : Text → Text → Bool) where
  -- An agent accepts a connection, with a ticket that the server takes.
  abbrev pub Accepts : Uuid → AppState → AppState → Type 0
  Accepts id s s' =
      (now : ℕ) × (agent_id : Uuid) × (ticket : Option Text) × (error : Option Text) × Redeems
        hash_token s now id agent_id ticket
      × (s' ≡ (acknowledge_connection hash_token s now id agent_id ticket true error).1)

  accept_maps :
      (s : AppState) (tunnel : Tunnel) (peer : SocketAddr) (draw : Draw)
      → let s' = (accept_connection contains hash_token print_addr s tunnel peer draw).1 in
        (s'.acks ≡ s.acks) × (s'.active ≡ s.active)
  unfolding accept_connection count_rejected count_failed
  accept_maps s tunnel peer draw = elim (Bool-cases (source_allowed contains tunnel peer.ip)) [
    | inl passed ↦ elim (Option-cases (get s.agents tunnel.agent_id)) [
      | inl e ↦ (ground arith, ground arith)
      | inr (agent, e) ↦
          let (_, a, c, _) =
            ask_maps contains hash_token print_addr columns uuid before s tunnel peer agent draw in
          (ground (arith, a), ground (arith, c))
    ]
    | inr stopped ↦ (ground arith, ground arith)
  ]

  accept_virtual_maps :
      (s : AppState) (tunnel : Tunnel) (peer : SocketAddr) (draw : Draw)
      → let s' = (accept_virtual contains hash_token print_addr s tunnel peer draw).1 in
        (s'.acks ≡ s.acks) × (s'.active ≡ s.active)
  unfolding accept_virtual count_rejected
  accept_virtual_maps s tunnel peer draw =
      elim (Bool-cases (source_allowed contains tunnel peer.ip)) [
        | inl passed ↦ elim (Option-cases (get s.agents tunnel.agent_id)) [
          | inl e ↦ (ground arith, ground arith)
          | inr (agent, e) ↦
              let (_, a, c, _) =
                ask_maps contains hash_token print_addr columns uuid before s tunnel peer agent
                  draw in
              (ground (arith, a), ground (arith, c))
        ]
        | inr stopped ↦ (ground arith, ground arith)
      ]

  frame_maps :
      (s : AppState) (bytes : List ℕ)
      → ((route_carrier_frame uuid s bytes).acks ≡ s.acks)
        × ((route_carrier_frame uuid s bytes).active ≡ s.active)
  unfolding route_carrier_frame
  frame_maps s bytes = (ground arith, ground arith)

  cleared-acknowledge_connection :
      (s : AppState) (now : ℕ) (id agent_id : Uuid) (ticket : Option Text) (accepted : Bool)
      (error : Option Text) (j : Uuid)
      → let (taken, s') =
          acknowledge_connection hash_token s now id agent_id ticket accepted error in
        cleared s' j ≡ true → (cleared s j ≡ true) ⊎ ((id ≡ j) × (taken ≡ true) × (accepted ≡ true))
  unfolding acknowledge_connection cleared accepts
  cleared-acknowledge_connection s now id agent_id ticket accepted error j h =
      elim (Bool-cases (cleared s j)) [
        | inl before ↦ inl before
        | inr not_before ↦ elim (Option-cases (get s.pending id)) [
          | inl e ↦ absurd (ground (arith, e, not_before))
          | inr (p, e) ↦
              let facts =
                get-insert s.acks id j (if accepted then none else some (refusal error)) in
              inr (
                ground (arith, e, not_before, facts, nat_beq_iff id j),
                ground (arith, e, not_before, facts),
                ground (arith, e, not_before, facts),
              )
        ]
      ]

  cleared-activate :
      (s : AppState) (tunnel : Tunnel) (agent : AgentPeer) (addr : Text) (draw : Draw) (j : Uuid)
      → (await_connection s draw.connection_id).0 ≡ ok tt
      → cleared (activate (await_connection s draw.connection_id).1 tunnel agent addr draw) j ≡ true
      → cleared s j ≡ true
  unfolding await_connection forget count_failed activate cleared accepts
  cleared-activate s tunnel agent addr draw j done h =
      elim (Option-cases (get s.acks draw.connection_id)) [
        | inl e ↦ absurd (ground (arith, e))
        | inr (some t, e) ↦ absurd (ground (arith, e))
        | inr (none, e) ↦ ground (
          arith,
          e,
          nat_beq_iff draw.connection_id j,
          get-remove s.acks draw.connection_id j,
          contains_key-insert s.active draw.connection_id j (record {
            id = draw.connection_id;
            tunnel_id = tunnel.id;
            peer_addr = addr;
            peer_location = draw.location;
            opened_at = draw.utc_now;
            bytes_up = 0;
            bytes_down = 0;
            tunnel_kind = tunnel.kind;
            transport = some agent.transport;
          }),
        )
      ]

  cleared-await_connection :
      (s : AppState) (id j : Uuid) → cleared (await_connection s id).1 j ≡ true → cleared s j ≡ true
  unfolding await_connection forget count_failed cleared accepts
  cleared-await_connection s id j h = ground (arith, get-remove s.acks id j)

  cleared-await_virtual :
      (s : AppState) (id j : Uuid) → cleared (await_virtual s id).1 j ≡ true → cleared s j ≡ true
  unfolding await_virtual forget cleared accepts
  cleared-await_virtual s id j h = ground (arith, get-remove s.acks id j)

  cleared-close_connection :
      (s : AppState) (id : Uuid) (closed_at : DateTime) (j : Uuid)
      → cleared (close_connection columns s id closed_at) j ≡ true
      → cleared s j ≡ true
  unfolding close_connection cleared
  cleared-close_connection s id closed_at j h = ground (arith, contains_key-remove s.active id j)

  cleared-close_virtual :
      (s : AppState) (id j : Uuid) → cleared (close_virtual s id) j ≡ true → cleared s j ≡ true
  unfolding close_virtual cleared
  cleared-close_virtual s id j h = ground (arith, contains_key-remove s.active id j)

  pub step_cleared :
      {s s' : AppState}
      → Step contains hash_token print_addr columns uuid before s s'
      → (j : Uuid) → cleared s' j ≡ true
      → (cleared s j ≡ true) ⊎ Accepts j s s'
  step_cleared (accept {s} tunnel peer draw fresh) j h =
      let (a, c) = accept_maps s tunnel peer draw in inl (sym (cleared_same s _ j a c) ∙ h)
  step_cleared (accept_web {s} tunnel peer draw fresh) j h =
      let (a, c) = accept_virtual_maps s tunnel peer draw in inl (sym (cleared_same s _ j a c) ∙ h)
  step_cleared (acknowledge {s} now id agent_id ticket accepted error) j h =
      elim (cleared-acknowledge_connection s now id agent_id ticket accepted error j h) [
        | inl already ↦ inl already
        | inr (same, taken, yes_said) ↦ inr (
          now,
          agent_id,
          ticket,
          error,
          subst (λ i. Redeems hash_token s now i agent_id ticket) same
              ((acknowledge_connection_lem hash_token s now id agent_id ticket accepted error).0
                taken),
          rw (same, yes_said) refl,
        )
      ]
  step_cleared (answered {s} tunnel agent addr draw done) j h =
      inl (cleared-activate s tunnel agent addr draw j done h)
  step_cleared (refused {s} id e idle failed) j h = inl (cleared-await_connection s id j h)
  step_cleared (refused_web {s} id e idle failed) j h = inl (cleared-await_virtual s id j h)
  step_cleared (close {s} id closed_at open_still) j h =
      inl (cleared-close_connection s id closed_at j h)
  step_cleared (close_web {s} id open_still) j h = inl (cleared-close_virtual s id j h)
  step_cleared (frame {s} bytes) j h =
      let (a, c) = frame_maps s bytes in inl (sym (cleared_same s _ j a c) ∙ h)
  step_cleared (expire {s} now cutoff) j h = inl (
      sym (
        cleared_same s (cleanup before s now cutoff) j (unfold cleanup in refl)
          (unfold cleanup in refl))
      ∙ h)
  step_cleared (elsewhere {s} {s'} p a c t) j h = inl (sym (cleared_same s s' j a c) ∙ h)
