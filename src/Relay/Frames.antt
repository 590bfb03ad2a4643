-- ===== src/Relay/Frames.antt =====
-- The frames of one stream among those of all streams that share a carrier.
use tunnelbridge.Prelude.{
  ℕ, ◌^◌, ◌<◌, ◌≡◌, refl, ap, sym, ◌∙◌, Option, none, some, List, [], ◌∷◌, ◌++◌, ◌==◌, nat_eq,
  if◌then◌else◌, length, arith, nat_beq_iff, drop, drop-append, append_assoc, append-nil, ==_refl,
  Bool-cases, inl, inr,
}
use tunnelbridge.Prelude.Map.{Map, get, insert, get-insert}
use tunnelbridge.Protocol.{Uuid, carrier_frame_data, carrier_frame_fin}
use tunnelbridge.Protocol.Frame.{
  UuidBytes, CarrierFrame, encode_carrier_frame, decode_carrier_frame, decode-encode,
}
use tunnelbridge.Server.State.{InboundCarrierFrame}
use tunnelbridge.Server.Bridge.{Read, bytes, Received, inbox_frame}

-- An order in which two writers can put their messages into one queue.
pub data Interleaving {ℓ} {A : Type ℓ} : List A → List A → List A → Type ℓ where
  ends : Interleaving [] [] []
  left : {x : A} {xs ys zs : List A} → Interleaving xs ys zs → Interleaving (x ∷ xs) ys (x ∷ zs)
  right : {y : A} {xs ys zs : List A} → Interleaving xs ys zs → Interleaving xs (y ∷ ys) (y ∷ zs)

unfoldable pub concat : List (List ℕ) → List ℕ
concat [] = []
concat (c ∷ cs) = c ++ concat cs

-- The reads of a peer that sends these chunks and then closes its end.
unfoldable pub reads : List (List ℕ) → List Read
reads [] = bytes [] ∷ []
reads (c ∷ cs) = bytes c ∷ reads cs

unfoldable pub IsChunk : List ℕ → Type 0
IsChunk [] = ⊥
IsChunk (b ∷ bs) = Unit {0}

-- What the frames of such a peer put into its inbox on the other side.
unfoldable pub inbox_of : List (List ℕ) → List InboundCarrierFrame
inbox_of [] = record { kind = carrier_frame_fin; payload = [] } ∷ []
inbox_of (c ∷ cs) = record { kind = carrier_frame_data; payload = c } ∷ inbox_of cs

unfoldable pub received : List InboundCarrierFrame → List Received
received [] = []
received (f ∷ fs) = inbox_frame f ∷ received fs

module _ (uuid : UuidBytes) (id : Uuid) where
  unfoldable pub place : Option CarrierFrame → List InboundCarrierFrame → List InboundCarrierFrame
  place none rest = rest
  place (some f) rest =
      if f.id == id then record { kind = f.kind; payload = f.payload } ∷ rest else rest

  -- The frames of the stream, in their order; what does not decode belongs to no stream.
  unfoldable pub frames_of : List (List ℕ) → List InboundCarrierFrame
  unfolding place
  frames_of [] = []
  frames_of (b ∷ bs) = place (decode_carrier_frame uuid b) (frames_of bs)

  unfoldable pub stream_frames : List (List ℕ) → List (List ℕ)
  stream_frames [] = encode_carrier_frame uuid carrier_frame_fin id [] ∷ []
  stream_frames (c ∷ cs) = encode_carrier_frame uuid carrier_frame_data id c ∷ stream_frames cs

  pub place_own :
      (kind : ℕ) (payload : List ℕ) (rest : List InboundCarrierFrame)
      → id < 2 ^ 128
      → place (decode_carrier_frame uuid (encode_carrier_frame uuid kind id payload)) rest
        ≡ record { kind = kind; payload = payload } ∷ rest
  unfolding place
  place_own kind payload rest h = ground (arith, decode-encode uuid kind id payload h, ==_refl id)

  pub frames_of-stream_frames :
      (cs : List (List ℕ)) → id < 2 ^ 128 → frames_of (stream_frames cs) ≡ inbox_of cs
  unfolding frames_of stream_frames inbox_of
  frames_of-stream_frames [] h = place_own carrier_frame_fin [] [] h
  frames_of-stream_frames (c ∷ cs) h =
      place_own carrier_frame_data c (frames_of (stream_frames cs)) h
      ∙ ap (◌∷◌ (record { kind = carrier_frame_data; payload = c })) (frames_of-stream_frames cs h)

  place_none :
      (d : Option CarrierFrame) (rest : List InboundCarrierFrame)
      → place d rest ≡ []
      → (rest ≡ []) × ((more : List InboundCarrierFrame) → place d more ≡ more)
  unfolding place
  place_none none rest h = (h, λ more. refl)
  place_none (some f) rest h = elim (Bool-cases (f.id == id)) [
    | inl own ↦ absurd (ground arith)
    | inr other ↦ (ground arith, λ more. ground arith)
  ]

  pub place_append :
      (d : Option CarrierFrame) (inbox rest : List InboundCarrierFrame)
      → (inbox ++ place d []) ++ rest ≡ inbox ++ place d rest
  unfolding place
  place_append none inbox rest = rw (append-nil inbox)
  place_append (some f) inbox rest = elim (Bool-cases (f.id == id)) [
    | inl own ↦ rw (own, append_assoc)
    | inr other ↦ rw (other, append-nil inbox)
  ]

  -- An inbox map in which one frame is put where it belongs.
  pub inbox_place :
      (streams : Map Uuid (List InboundCarrierFrame)) (f : CarrierFrame)
      (inbox there : List InboundCarrierFrame)
      → get streams id ≡ some inbox
      → get streams f.id ≡ some there
      → get (insert streams f.id (there ++ record { kind = f.kind; payload = f.payload } ∷ [])) id
        ≡ some (inbox ++ place (some f) [])
  unfolding place
  inbox_place streams f inbox there found at = elim (Bool-cases (f.id == id)) [
    | inl own ↦
        let same : f.id ≡ id = (nat_beq_iff f.id id).0 own in
        ground (
          arith,
          own,
          ap (get streams) same,
          get-insert streams f.id id (there ++ record { kind = f.kind; payload = f.payload } ∷ []),
        )
    | inr other ↦ ground (
      arith,
      other,
      append-nil inbox,
      get-insert streams f.id id (there ++ record { kind = f.kind; payload = f.payload } ∷ []),
    )
  ]

  pub frames_of-Interleaving :
      {xs ys zs : List (List ℕ)}
      → Interleaving xs ys zs
      → frames_of ys ≡ []
      → frames_of zs ≡ frames_of xs
  unfolding frames_of
  frames_of-Interleaving ends h = refl
  frames_of-Interleaving (left {x} {xs} {ys} {zs} i) h =
      ap (place (decode_carrier_frame uuid x)) (frames_of-Interleaving i h)
  frames_of-Interleaving (right {y} {xs} {ys} {zs} i) h =
      let (rest, skip) = place_none (decode_carrier_frame uuid y) (frames_of ys) h in
      skip (frames_of zs) ∙ frames_of-Interleaving i rest

pub append_cancel {ℓ} : {A : Type ℓ} (xs ys zs : List A) → xs ++ ys ≡ xs ++ zs → ys ≡ zs
append_cancel xs ys zs h = sym (drop-append xs ys) ∙ ap (drop (length xs)) h ∙ drop-append xs zs

pub some_injective {ℓ} : {A : Type ℓ} {x y : A} → some x ≡ some y → x ≡ y
some_injective h = cc
