-- ===== src/Record/Laws.antt =====
-- One record: what a reader makes of the bytes that `write_record` wrote.
use tunnelbridge.Prelude.{
  le→leb, take_all, drop_all, take-append_le, drop-append_le, Bool-cases, inl, inr, ℕ, ◌%◌, ◌^◌,
  ◌≤◌, ◌<◌, ◌≡◌, List, [], ◌∷◌, ◌++◌, ltb, leb, length, take, drop, if◌then◌else◌, arith, All,
  append_assoc, take-append_of_length, drop-append_of_length, length-append, length-take,
  take-append-drop, All-take, false,
}
use tunnelbridge.Prelude.Bytes.{
  IsByte, be_bytes, length-be_bytes, be_value-be_bytes, be_bytes-be_value,
}
use tunnelbridge.Prelude.Result.{ok, err, >>=-eq-ok}
use tunnelbridge.Record.{
  Record, too_large, max_record_size, read_u8, read_u32, read_exact, read_payload, read_record,
  write_record,
}

-- The four bytes of a length are read back as that length.
read_u32-be_bytes :
    (n : ℕ) (rest : List ℕ) → n < 2 ^ 32 → read_u32 (be_bytes 4 n ++ rest) ≡ ok (n, rest)
unfolding read_u32
read_u32-be_bytes n rest h =
    let enough : ltb (length (be_bytes 4 n ++ rest)) 4 ≡ false =
      ground (arith, length-append (be_bytes 4 n) rest, length-be_bytes 4 n) in
    rw (
      enough,
      take-append_of_length 4 (be_bytes 4 n) rest (length-be_bytes 4 n),
      drop-append_of_length 4 (be_bytes 4 n) rest (length-be_bytes 4 n),
      be_value-be_bytes 4 n h,
    )

read_exact-append :
    (n : ℕ) (payload rest : List ℕ)
    → n ≤ length payload
    → read_exact n (payload ++ rest) ≡ ok (take n payload, drop n payload ++ rest)
unfolding read_exact
read_exact-append n payload rest h =
    let enough : ltb (length (payload ++ rest)) n ≡ false =
      ground (arith, length-append payload rest) in
    rw (enough, take-append_le n payload rest h, drop-append_le n payload rest h)

-- Whatever the size of a payload, its reader sees the low 32 bits of that size: it refuses the record
-- if they are above the limit, and otherwise reads that much.
pub read-write :
    (kind : ℕ) (payload rest : List ℕ)
    → let size = length payload % 2 ^ 32 in
      read_record (write_record kind payload ++ rest) ≡ (
        if leb size max_record_size
        then ok (record { kind = kind; payload = take size payload }, drop size payload ++ rest)
        else err too_large)
unfolding read_record read_payload write_record read_u8
read-write kind payload rest =
    let size = length payload % 2 ^ 32 in
    rw
      (
        append_assoc (be_bytes 4 size) payload rest,
        read_u32-be_bytes size (payload ++ rest) (omega arith),
      )
      (elim (Bool-cases (leb size max_record_size)) [
        | inl fits ↦ rw (fits, read_exact-append size payload rest (omega arith))
        | inr above ↦ rw above
      ])

-- A record whose payload is within the limit is read back, and what follows it is left unread.
pub read-write_fits :
    (kind : ℕ) (payload rest : List ℕ)
    → length payload ≤ max_record_size
    → read_record (write_record kind payload ++ rest)
      ≡ ok (record { kind = kind; payload = payload }, rest)
read-write_fits kind payload rest h =
    let small : length payload % 2 ^ 32 ≡ length payload = omega arith in
    rw (
      read-write kind payload rest,
      small,
      le→leb (length payload) max_record_size h,
      take_all payload,
      drop_all payload,
    )

read_exact_sound :
    (n : ℕ) (bytes word rest : List ℕ)
    → read_exact n bytes ≡ ok (word, rest)
    → (length word ≡ n) × (word ++ rest ≡ bytes)
unfolding read_exact
read_exact_sound n bytes word rest h = ground (arith, length-take n bytes, take-append-drop n bytes)

read_u32_sound :
    (bytes rest : List ℕ) (n : ℕ)
    → All IsByte bytes
    → read_u32 bytes ≡ ok (n, rest)
    → be_bytes 4 n ++ rest ≡ bytes
unfolding read_u32 read_exact
read_u32_sound bytes rest n b h = ground (
  arith,
  length-take 4 bytes,
  take-append-drop 4 bytes,
  be_bytes-be_value 4 (take 4 bytes),
  All-take IsByte 4 bytes b,
)

-- The part of `read_record` behind the length.
read_payload_sound :
    (kind size : ℕ) (bytes rest : List ℕ) (r : Record)
    → read_payload kind size bytes ≡ ok (r, rest)
    → (size ≤ max_record_size)
      × (r.kind ≡ kind)
      × (length r.payload ≡ size)
      × (r.payload ++ rest ≡ bytes)
unfolding read_payload read_exact
read_payload_sound kind size bytes rest r h =
    ground (arith, length-take size bytes, take-append-drop size bytes)

-- A record that is read from bytes has a payload within the limit, and writing it gives exactly the
-- bytes that were consumed.
pub read_record_sound :
    (bytes rest : List ℕ) (r : Record)
    → All IsByte bytes
    → read_record bytes ≡ ok (r, rest)
    → (length r.payload ≤ max_record_size) × (write_record r.kind r.payload ++ rest ≡ bytes)
unfolding read_record write_record read_u8
read_record_sound [] rest r b h = cc
read_record_sound (kind ∷ bytes) rest r b h =
    let (header, e, h1) = >>=-eq-ok (read_u32 bytes) _ h in
    let (fits, same, size, body) = read_payload_sound kind header.0 header.1 rest r h1 in
    let low : length r.payload % 2 ^ 32 ≡ header.0 = omega arith in
    (
      omega arith,
      rw (low, append_assoc (be_bytes 4 header.0) r.payload rest, body)
          (cc (same, read_u32_sound bytes header.1 header.0 b.1 e)),
    )
