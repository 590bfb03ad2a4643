-- ===== src/Relay/ToDevice.antt =====
-- From the public connection to the local target: `upstream` of server/src/gateway.rs and
-- `downstream` of desktop/src-tauri/src/agent.rs.
use tunnelbridge.Prelude.{
  ℕ, ◌+◌, ◌^◌, ◌<◌, ◌≡◌, refl, ap, sym, ◌∙◌, subst, true, some, List, [], ◌∷◌, ◌++◌, nat_eq, length,
  arith, All, nat_beq_iff, append_assoc, append-nil, length-append, ==_refl, Option-cases, inl, inr,
}
use tunnelbridge.Prelude.Map.{get, insert, get-insert}
use tunnelbridge.Protocol.{Uuid, carrier_frame_data, carrier_frame_fin}
use tunnelbridge.Protocol.Frame.{UuidBytes, encode_carrier_frame, decode_carrier_frame}
use tunnelbridge.Server.State.{AppState, Carrier, InboundCarrierFrame, add_down}
use tunnelbridge.Server.Bridge.{
  Read, bytes, Received, inbox_frame, Outcome, running, finished, broken, Sink, send_binary,
  edit_active, count_down,
}
use tunnelbridge.Server.Bridge
use tunnelbridge.Agent.Runtime.{Session}
use tunnelbridge.Agent.Local
use tunnelbridge.Agent.Local.{route_local_frame}
use tunnelbridge.Relay.Frames.{
  Interleaving, concat, reads, IsChunk, inbox_of, received, frames_of, place, place_append,
  inbox_place, stream_frames, frames_of-stream_frames, frames_of-Interleaving, append_cancel,
  some_injective,
}

pub send_open :
    (s : AppState) (session_id : Uuid) (frame : List ℕ) (c : Carrier)
    → get s.carriers session_id ≡ some c
    → c.is_open ≡ true
    → (s' : AppState) × (send_binary s session_id frame ≡ some s')
      × (get s'.carriers session_id ≡ some (record c { binary = c.binary ++ frame ∷ [] }))
      × (s'.counters ≡ s.counters)
unfolding send_binary
send_open s session_id frame c found live = (
  record s {
    carriers = insert s.carriers session_id (record c { binary = c.binary ++ frame ∷ [] });
  },
  ground (arith, found, live),
  ground (
    arith,
    get-insert s.carriers session_id session_id (record c { binary = c.binary ++ frame ∷ [] }),
    ==_refl session_id,
  ),
  refl,
)

count_down_keeps :
    (n : ℕ) (s : AppState) (id : Uuid)
    → ((count_down n s id).carriers ≡ s.carriers)
      × ((count_down n s id).counters.bytes_down ≡ s.counters.bytes_down + n)
unfolding count_down edit_active add_down
count_down_keeps n s id = (ground arith, ground arith)

module _ (uuid : UuidBytes) (session_id id : Uuid) where
  -- The loop ends, has queued the frames of the stream behind what was there, and has counted.
  Queues : AppState → Carrier → List (List ℕ) → Outcome × AppState → Type 0
  Queues s c cs (o, s') =
      (o ≡ finished)
      × (get s'.carriers session_id
          ≡ some (record c { binary = c.binary ++ stream_frames uuid id cs }))
      × (s'.counters.bytes_down ≡ s.counters.bytes_down + length (concat cs))

  -- A read that is queued, and the rest of the loop.
  upstream-cons :
      (s s' : AppState) (b : ℕ) (bs : List ℕ) (rs : List Read)
      → send_binary s session_id (encode_carrier_frame uuid carrier_frame_data id (b ∷ bs))
        ≡ some s'
      → Bridge.upstream uuid session_id id s (bytes (b ∷ bs) ∷ rs)
        ≡ Bridge.upstream uuid session_id id (count_down (length (b ∷ bs)) s' id) rs
  unfolding Bridge.upstream Bridge.up_turn
  upstream-cons s s' b bs rs sent = ground (arith, sent)

  upstream_lem :
      (s : AppState) (c : Carrier) (cs : List (List ℕ))
      → get s.carriers session_id ≡ some c
      → c.is_open ≡ true
      → All IsChunk cs
      → Queues s c cs (Bridge.upstream uuid session_id id s (reads cs))
  unfolding Queues Bridge.upstream Bridge.up_turn reads stream_frames concat IsChunk
  upstream_lem s c [] found live h =
      let (s', sent, kept, same) =
        send_open s session_id (encode_carrier_frame uuid carrier_frame_fin id []) c found live in
      (ground (arith, sent), ground (arith, sent, kept), ground (arith, sent, same))
  upstream_lem s c ([] ∷ cs) found live h = absurd h.0
  upstream_lem s c ((b ∷ bs) ∷ cs) found live h =
      let frame = encode_carrier_frame uuid carrier_frame_data id (b ∷ bs) in
      let (s', sent, kept, same) = send_open s session_id frame c found live in
      let s1 = count_down (length (b ∷ bs)) s' id in
      let (carriers, counted) = count_down_keeps (length (b ∷ bs)) s' id in
      let (o, queued, total) =
        upstream_lem s1 (record c { binary = c.binary ++ frame ∷ [] }) cs
          (ground (arith, carriers, kept)) live h.1 in
      rw (upstream-cons s s' b bs (reads cs) sent) (
        o,
        ground (arith, queued, append_assoc c.binary (frame ∷ []) (stream_frames uuid id cs)),
        omega (
          arith,
          total,
          counted,
          ap (λ k. k.bytes_down) same,
          length-append (b ∷ bs) (concat cs),
        ),
      )

module _ (uuid : UuidBytes) where
  -- The agent's reader: one frame after the other.
  unfoldable pub route_all : Session → List (List ℕ) → Session
  route_all a [] = a
  route_all a (b ∷ bs) = route_all (route_local_frame uuid a b) bs

  pub route_one :
      (id : Uuid) (a : Session) (b : List ℕ) (inbox : List InboundCarrierFrame)
      → get a.streams id ≡ some inbox
      → get (route_local_frame uuid a b).streams id
        ≡ some (inbox ++ place uuid id (decode_carrier_frame uuid b) [])
  unfolding route_local_frame
  route_one id a b inbox found = elim (Option-cases (decode_carrier_frame uuid b)) [
    | inl e ↦ unfold place in ground (arith, e, found, append-nil inbox)
    | inr (f, e) ↦ elim (Option-cases (get a.streams f.id)) [
      | inl gone ↦
          unfold place in
          ground (
            arith,
            e,
            found,
            gone,
            append-nil inbox,
            nat_beq_iff f.id id,
            ap (get a.streams) {x = f.id} {y = id},
          )
      | inr (there, at) ↦
          ground (arith, e, at, inbox_place uuid id a.streams f inbox there found at)
    ]
  ]

  route_all_inbox :
      (id : Uuid) (a : Session) (bs : List (List ℕ)) (inbox : List InboundCarrierFrame)
      → get a.streams id ≡ some inbox
      → get (route_all a bs).streams id ≡ some (inbox ++ frames_of uuid id bs)
  unfolding route_all frames_of
  route_all_inbox id a [] inbox found = rw (append-nil inbox) found
  route_all_inbox id a (b ∷ bs) inbox found =
      route_all_inbox id (route_local_frame uuid a b) bs
        (inbox ++ place uuid id (decode_carrier_frame uuid b) []) (route_one id a b inbox found)
      ∙ ap some (place_append uuid id (decode_carrier_frame uuid b) inbox (frames_of uuid id bs))

-- The bytes are written in their order, and then the writing half is closed; they are counted.
unfoldable pub Delivers : Session → Sink → List ℕ → Outcome × Session × Sink → Type 0
Delivers a sink text (o, a', sink') =
    (o ≡ finished)
    × (sink' ≡ record sink { written = sink.written ++ text; is_shut = true })
    × (a'.runtime.metrics.bytes_down ≡ a.runtime.metrics.bytes_down + length text)

downstream_lem :
    (a : Session) (sink : Sink) (cs : List (List ℕ))
    → sink.is_open ≡ true
    → Delivers a sink (concat cs) (Local.downstream a sink (received (inbox_of cs)))
unfolding Delivers Local.downstream Local.down_turn Local.count_down received inbox_of concat
downstream_lem a sink [] live =
    (ground (arith, live), ground (arith, live, append-nil sink.written), ground (arith, live))
downstream_lem a sink (c ∷ cs) live =
    let (o, text, total) =
      downstream_lem (Local.count_down (length c) a) (record sink { written = sink.written ++ c })
        cs live in
    (
      ground (arith, live, o),
      ground (arith, live, text, append_assoc sink.written c (concat cs)),
      ground (arith, live, total, length-append c (concat cs)),
    )

-- What a public client sends reaches the device's local target unchanged. The client sends chunks, none
-- of them empty, and closes its end; the server's carrier is open. Then the loop of the server ends,
-- and whatever frames it has queued (`sent`): if they arrive at the agent among frames of other
-- streams, in any interleaving, at an empty inbox, and the local target can be written to, then the
-- agent's loop ends, it has written the concatenation of the chunks and closed the target's end, and
-- server and agent have counted the same number of bytes, that of the concatenation.
pub relay_to_device :
    (uuid : UuidBytes) (session_id id : Uuid) (s : AppState) (c : Carrier) (cs : List (List ℕ))
    (a : Session) (sink : Sink) (sent others arrivals : List (List ℕ))
    (inbox : List InboundCarrierFrame)
    → id < 2 ^ 128
    → All IsChunk cs
    → get s.carriers session_id ≡ some c
    → c.is_open ≡ true
    → get (Bridge.upstream uuid session_id id s (reads cs)).1.carriers session_id
      ≡ some (record c { binary = c.binary ++ sent })
    → Interleaving sent others arrivals
    → frames_of uuid id others ≡ []
    → get a.streams id ≡ some []
    → get (route_all uuid a arrivals).streams id ≡ some inbox
    → sink.is_open ≡ true
    → ((Bridge.upstream uuid session_id id s (reads cs)).0 ≡ finished)
      × ((Bridge.upstream uuid session_id id s (reads cs)).1.counters.bytes_down
          ≡ s.counters.bytes_down + length (concat cs))
      × Delivers
          (route_all uuid a arrivals)
          sink
          (concat cs)
          (Local.downstream (route_all uuid a arrivals) sink (received inbox))
unfolding Queues
relay_to_device uuid session_id id s c cs a sink sent others arrivals inbox small chunks found live
      queued order apart empty arrived writable =
    let (done, kept, counted) = upstream_lem uuid session_id id s c cs found live chunks in
    let same : sent ≡ stream_frames uuid id cs =
      append_cancel c.binary sent (stream_frames uuid id cs)
        (ap (λ k. k.binary) (some_injective (sym queued ∙ kept))) in
    let mine : inbox ≡ inbox_of cs =
      some_injective (sym arrived ∙ route_all_inbox uuid id a arrivals [] empty)
      ∙ frames_of-Interleaving uuid id order apart
      ∙ ap (frames_of uuid id) same
      ∙ frames_of-stream_frames uuid id cs small in
    (
      done,
      counted,
      subst
          (λ i.
            Delivers (route_all uuid a arrivals) sink (concat cs)
              (Local.downstream (route_all uuid a arrivals) sink (received i)))
          (sym mine) (downstream_lem (route_all uuid a arrivals) sink cs writable),
    )
