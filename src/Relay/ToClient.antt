-- ===== src/Relay/ToClient.antt =====
-- From the local target to the public connection: `upstream` of desktop/src-tauri/src/agent.rs and
-- `downstream` of server/src/gateway.rs.
use tunnelbridge.Prelude.{
  ℕ, ◌+◌, ◌^◌, ◌<◌, ◌≡◌, refl, ap, sym, ◌∙◌, subst, true, some, List, [], ◌∷◌, ◌++◌, map, nat_eq,
  length, arith, All, nat_beq_iff, append_assoc, append-nil, length-append, Option-cases, inl, inr,
}
use tunnelbridge.Prelude.Map.{get}
use tunnelbridge.Protocol.{Uuid, carrier_frame_data}
use tunnelbridge.Protocol.Frame.{UuidBytes, encode_carrier_frame, decode_carrier_frame}
use tunnelbridge.Server.State.{AppState, InboundCarrierFrame, add_up}
use tunnelbridge.Server.Gateway.Connection.{route_carrier_frame}
use tunnelbridge.Server.Bridge.{
  Read, bytes, Received, inbox_frame, Outcome, running, finished, broken, Sink, edit_active,
  count_up,
}
use tunnelbridge.Server.Bridge
use tunnelbridge.Agent.Runtime.{Session, Outbound, binary}
use tunnelbridge.Agent.Local
use tunnelbridge.Relay.Frames.{
  Interleaving, concat, reads, IsChunk, inbox_of, received, frames_of, place, place_append,
  inbox_place, stream_frames, frames_of-stream_frames, frames_of-Interleaving, append_cancel,
  some_injective,
}

module _ (uuid : UuidBytes) (id : Uuid) where
  -- The loop ends, has queued the frames of the stream behind what was there, and has counted.
  Queues : Session → List (List ℕ) → Outcome × Session → Type 0
  Queues a cs (o, a') =
      (o ≡ finished)
      × (a'.outbound ≡ a.outbound ++ map binary (stream_frames uuid id cs))
      × (a'.runtime.metrics.bytes_up ≡ a.runtime.metrics.bytes_up + length (concat cs))

  upstream_lem :
      (a : Session) (cs : List (List ℕ))
      → a.is_open ≡ true
      → All IsChunk cs
      → Queues a cs (Local.upstream uuid id a (reads cs))
  unfolding Queues Local.upstream Local.up_turn Local.send_outbound Local.count_up reads
      stream_frames concat IsChunk
  upstream_lem a [] live h = (ground (arith, live), ground (arith, live), ground (arith, live))
  upstream_lem a ([] ∷ cs) live h = absurd h.0
  upstream_lem a ((b ∷ bs) ∷ cs) live h =
      let frame = encode_carrier_frame uuid carrier_frame_data id (b ∷ bs) in
      let (o, queued, total) =
        upstream_lem
          (Local.count_up (length (b ∷ bs))
            (record a { outbound = a.outbound ++ binary frame ∷ [] }))
          cs live h.1 in
      (
        ground (arith, live, o),
        ground (
          arith,
          live,
          queued,
          append_assoc a.outbound (binary frame ∷ []) (map binary (stream_frames uuid id cs)),
        ),
        ground (arith, live, total, length-append (b ∷ bs) (concat cs)),
      )

module _ (uuid : UuidBytes) where
  -- The server's reader of a carrier: one frame after the other.
  unfoldable pub route_all : AppState → List (List ℕ) → AppState
  route_all s [] = s
  route_all s (b ∷ bs) = route_all (route_carrier_frame uuid s b) bs

  route_one :
      (id : Uuid) (s : AppState) (b : List ℕ) (inbox : List InboundCarrierFrame)
      → get s.streams id ≡ some inbox
      → get (route_carrier_frame uuid s b).streams id
        ≡ some (inbox ++ place uuid id (decode_carrier_frame uuid b) [])
  unfolding route_carrier_frame
  route_one id s b inbox found = elim (Option-cases (decode_carrier_frame uuid b)) [
    | inl e ↦ unfold place in ground (arith, e, found, append-nil inbox)
    | inr (f, e) ↦ elim (Option-cases (get s.streams f.id)) [
      | inl gone ↦
          unfold place in
          ground (
            arith,
            e,
            found,
            gone,
            append-nil inbox,
            nat_beq_iff f.id id,
            ap (get s.streams) {x = f.id} {y = id},
          )
      | inr (there, at) ↦
          ground (arith, e, at, inbox_place uuid id s.streams f inbox there found at)
    ]
  ]

  route_all_inbox :
      (id : Uuid) (s : AppState) (bs : List (List ℕ)) (inbox : List InboundCarrierFrame)
      → get s.streams id ≡ some inbox
      → get (route_all s bs).streams id ≡ some (inbox ++ frames_of uuid id bs)
  unfolding route_all frames_of
  route_all_inbox id s [] inbox found = rw (append-nil inbox) found
  route_all_inbox id s (b ∷ bs) inbox found =
      route_all_inbox id (route_carrier_frame uuid s b) bs
        (inbox ++ place uuid id (decode_carrier_frame uuid b) []) (route_one id s b inbox found)
      ∙ ap some (place_append uuid id (decode_carrier_frame uuid b) inbox (frames_of uuid id bs))

-- The bytes are written in their order, and then the writing half is closed; they are counted.
unfoldable pub Delivers : AppState → Sink → List ℕ → Outcome × AppState × Sink → Type 0
Delivers s sink text (o, s', sink') =
    (o ≡ finished)
    × (sink' ≡ record sink { written = sink.written ++ text; is_shut = true })
    × (s'.counters.bytes_up ≡ s.counters.bytes_up + length text)

count_up_adds :
    (n : ℕ) (s : AppState) (id : Uuid)
    → (count_up n s id).counters.bytes_up ≡ s.counters.bytes_up + n
unfolding count_up edit_active add_up
count_up_adds n s id = ground arith

downstream_lem :
    (id : Uuid) (s : AppState) (sink : Sink) (cs : List (List ℕ))
    → sink.is_open ≡ true
    → Delivers s sink (concat cs) (Bridge.downstream id s sink (received (inbox_of cs)))
unfolding Delivers Bridge.downstream Bridge.down_turn received inbox_of concat
downstream_lem id s sink [] live =
    (ground (arith, live), ground (arith, live, append-nil sink.written), ground (arith, live))
downstream_lem id s sink (c ∷ cs) live =
    let (o, text, total) =
      downstream_lem id (count_up (length c) s id) (record sink { written = sink.written ++ c }) cs
        live in
    (
      ground (arith, live, o),
      ground (arith, live, text, append_assoc sink.written c (concat cs)),
      ground (arith, live, total, length-append c (concat cs), count_up_adds (length c) s id),
    )

frame_bytes : Outbound → List ℕ
frame_bytes (binary frame) = frame
frame_bytes _ = []

map-frame_bytes : (xs : List (List ℕ)) → map frame_bytes (map binary xs) ≡ xs
unfolding frame_bytes
map-frame_bytes [] = refl
map-frame_bytes (x ∷ xs) = ap (◌∷◌ x) (map-frame_bytes xs)

map_binary : {xs ys : List (List ℕ)} → map binary xs ≡ map binary ys → xs ≡ ys
map_binary {xs} {ys} h = sym (map-frame_bytes xs) ∙ ap (map frame_bytes) h ∙ map-frame_bytes ys

-- What the device's local target answers reaches the public client unchanged. The target sends
-- chunks, none of them empty, and closes its end; the agent's carrier is open. Then the loop of the
-- agent ends, and whatever frames it has queued (`sent`): if they arrive at the server among frames
-- of other streams, in any interleaving, at an empty inbox, and the public connection can be written
-- to, then the server's loop ends, it has written the concatenation of the chunks and closed the
-- connection's writing half, and agent and server have counted the same number of bytes, that of the
-- concatenation.
pub relay_to_client :
    (uuid : UuidBytes) (id : Uuid) (a : Session) (cs : List (List ℕ)) (s : AppState) (sink : Sink)
    (sent others arrivals : List (List ℕ)) (inbox : List InboundCarrierFrame)
    → id < 2 ^ 128
    → All IsChunk cs
    → a.is_open ≡ true
    → (Local.upstream uuid id a (reads cs)).1.outbound ≡ a.outbound ++ map binary sent
    → Interleaving sent others arrivals
    → frames_of uuid id others ≡ []
    → get s.streams id ≡ some []
    → get (route_all uuid s arrivals).streams id ≡ some inbox
    → sink.is_open ≡ true
    → ((Local.upstream uuid id a (reads cs)).0 ≡ finished)
      × ((Local.upstream uuid id a (reads cs)).1.runtime.metrics.bytes_up
          ≡ a.runtime.metrics.bytes_up + length (concat cs))
      × Delivers
          (route_all uuid s arrivals)
          sink
          (concat cs)
          (Bridge.downstream id (route_all uuid s arrivals) sink (received inbox))
unfolding Queues
relay_to_client uuid id a cs s sink sent others arrivals inbox small chunks live queued order apart
      empty arrived writable =
    let (done, kept, counted) = upstream_lem uuid id a cs live chunks in
    let same : sent ≡ stream_frames uuid id cs = map_binary (
      append_cancel a.outbound (map binary sent) (map binary (stream_frames uuid id cs))
        (sym queued ∙ kept)) in
    let mine : inbox ≡ inbox_of cs =
      some_injective (sym arrived ∙ route_all_inbox uuid id s arrivals [] empty)
      ∙ frames_of-Interleaving uuid id order apart
      ∙ ap (frames_of uuid id) same
      ∙ frames_of-stream_frames uuid id cs small in
    (
      done,
      counted,
      subst
          (λ i.
            Delivers (route_all uuid s arrivals) sink (concat cs)
              (Bridge.downstream id (route_all uuid s arrivals) sink (received i)))
          (sym mine) (downstream_lem id (route_all uuid s arrivals) sink cs writable),
    )
