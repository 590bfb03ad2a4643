-- ===== src/Protocol/Frame.antt =====
-- crates/protocol/src/lib.rs, `encode_carrier_frame` and `decode_carrier_frame`. Bytes are numbers.
-- The conversion of a `Uuid` is that of the crate `uuid`, a parameter with its documented laws.
use tunnelbridge.Prelude.{
  false, All-take, take-append_of_length, drop-append_of_length, ℕ, suc, ◌^◌, ◌<◌, ◌≡◌, refl, ◌↔◌,
  ◌⊎◌, inl, inr, Option-cases, Bool-cases, ◌≤◌, Option, none, some, List, [], ◌∷◌, ◌++◌, arith, ltb,
  length, take, drop, if◌then◌else◌, length-append, take-append-drop, length-take, All,
}
use tunnelbridge.Prelude.Bytes.{IsByte}
use tunnelbridge.Protocol.Types.{Uuid}

-- `Uuid::as_bytes` and `Uuid::from_slice`: 16 bytes that stand for a 128-bit number.
pub record UuidBytes : Type 0 where
  pub as_bytes : Uuid → List ℕ
  pub from_slice : List ℕ → Option Uuid
  pub length-as_bytes : (id : Uuid) → length (as_bytes id) ≡ 16
  pub from_slice-as_bytes : (id : Uuid) → id < 2 ^ 128 → from_slice (as_bytes id) ≡ some id
  pub from_slice_total :
      (bytes : List ℕ) → length bytes ≡ 16 → (id : Uuid) × (from_slice bytes ≡ some id)
  pub as_bytes-from_slice :
      (bytes : List ℕ) (id : Uuid)
      → All IsByte bytes
      → from_slice bytes ≡ some id
      → as_bytes id ≡ bytes

pub record CarrierFrame : Type 0 where
  pub kind : ℕ
  pub id : Uuid
  pub payload : List ℕ

module _ (uuid : UuidBytes) where
  open uuid use {
    as_bytes, from_slice, length-as_bytes, from_slice-as_bytes, from_slice_total,
    as_bytes-from_slice,
  }

  unfoldable pub encode_carrier_frame : ℕ → Uuid → List ℕ → List ℕ
  encode_carrier_frame kind id payload = (kind ∷ []) ++ (as_bytes id ++ payload)

  -- `frame[0]`, of a frame that is at least 17 bytes long.
  abbrev first : List ℕ → ℕ
  first [] = 0
  first (b ∷ bs) = b

  unfoldable pub decode_carrier_frame : List ℕ → Option CarrierFrame
  decode_carrier_frame frame =
      if ltb (length frame) 17 then none else elim (from_slice (take 16 (drop 1 frame))) [
        | none ↦ none
        | some id ↦ some (record { kind = first frame; id = id; payload = drop 17 frame })
      ]

  -- Decoding gives back the kind, the stream and the payload of every encoded frame, whatever bytes
  -- the payload holds, for a 128-bit identifier.
  pub decode-encode :
      (kind id : ℕ) (payload : List ℕ)
      → id < 2 ^ 128
      → decode_carrier_frame (encode_carrier_frame kind id payload)
        ≡ some (record { kind = kind; id = id; payload = payload })
  unfolding encode_carrier_frame decode_carrier_frame
  decode-encode kind id payload h =
      let size : ltb (suc (length (as_bytes id ++ payload))) 17 ≡ false =
        ground (arith, length-append (as_bytes id) payload, length-as_bytes id) in
      rw (
        size,
        take-append_of_length 16 (as_bytes id) payload (length-as_bytes id),
        from_slice-as_bytes id h,
        drop-append_of_length 16 (as_bytes id) payload (length-as_bytes id),
      )

  decode_none : (frame : List ℕ) → (decode_carrier_frame frame ≡ none) ↔ (length frame < 17)
  unfolding decode_carrier_frame
  decode_none [] = (λ _. omega arith, λ _. refl)
  decode_none (b ∷ bs) =
      (λ h. ground (arith, from_slice_total (take 16 bs), length-take 16 bs), λ h. ground arith)

  encode-decode :
      (bytes : List ℕ) (frame : CarrierFrame)
      → All IsByte bytes
      → decode_carrier_frame bytes ≡ some frame
      → encode_carrier_frame frame.kind frame.id frame.payload ≡ bytes
  unfolding encode_carrier_frame decode_carrier_frame
  encode-decode [] frame bounded h = cc
  encode-decode (b ∷ bs) frame bounded h = ground (
    arith,
    as_bytes-from_slice (take 16 bs) frame.id (All-take IsByte 16 bs bounded.1),
    take-append-drop 16 bs,
  )

  -- What becomes of any bytes: if they are fewer than a kind and an identifier take, decoding fails, and
  -- otherwise it gives a frame whose encoding is exactly these bytes, so that no two frames read alike.
  pub decode_carrier_frame_lem :
      (bytes : List ℕ)
      → All IsByte bytes
      → ((length bytes < 17) × (decode_carrier_frame bytes ≡ none))
        ⊎ ((17 ≤ length bytes)
            × ((frame : CarrierFrame) × (decode_carrier_frame bytes ≡ some frame)
                × (encode_carrier_frame frame.kind frame.id frame.payload ≡ bytes)))
  decode_carrier_frame_lem bytes bounded = elim (Option-cases (decode_carrier_frame bytes)) [
    | inl e ↦ let short = decode_none bytes in inl (short.0 e, e)
    | inr (frame, e) ↦
        let short = decode_none bytes in
        inr (
          elim (Bool-cases (ltb (length bytes) 17)) [
            | inl small ↦ absurd (cc (e, short.1 (ground arith)))
            | inr large ↦ ground arith
          ],
          (frame, e, encode-decode bytes frame bounded e),
        )
  ]
