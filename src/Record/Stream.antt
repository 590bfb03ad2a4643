-- ===== src/Record/Stream.antt =====
-- A carrier's stream of records: the reading loops of server/src/quic.rs, server/src/kcp.rs and the
-- agent take one record after the other and stop at the first that cannot be read.
use tunnelbridge.Prelude.{
  inl, inr, ℕ, zero, suc, ◌≤◌, ◌<◌, ◌≡◌, refl, Option, none, some, List, [], ◌∷◌, ◌++◌, length,
  arith, All, length-drop, take, drop,
}
use tunnelbridge.Prelude.Result.{ok, err, Result-cases}
use tunnelbridge.Record.{
  Record, ReadError, end_of_file, max_record_size, read_record, write_record, read_u8, read_u32,
  read_payload, read_exact,
}
use tunnelbridge.Prelude.Bytes.{be_value}
use tunnelbridge.Record.Laws.{read-write_fits}

cons_record : Record → Option (List Record × ReadError) → Option (List Record × ReadError)
cons_record r none = none
cons_record r (some (rs, e)) = some (r ∷ rs, e)

-- The records, and the error that ended the loop; `none` if the fuel runs out.
pub read_records : ℕ → List ℕ → Option (List Record × ReadError)
read_records zero bytes = none
read_records (suc fuel) bytes = elim (read_record bytes) [
  | err e ↦ some ([], e)
  | ok (r, rest) ↦ cons_record r (read_records fuel rest)
]

-- The writer task's output.
pub write_records : List Record → List ℕ
write_records [] = []
write_records (r ∷ rs) = write_record r.kind r.payload ++ write_records rs

abbrev pub Fits : Record → Type 0
Fits r = length r.payload ≤ max_record_size

-- A reader receives exactly the records that were written, in their order, and then the end of the
-- stream, if no payload is above the limit.
pub read_records-write_records :
    (fuel : ℕ) (rs : List Record)
    → All Fits rs
    → length rs < fuel
    → read_records fuel (write_records rs) ≡ some (rs, end_of_file)
unfolding read_records write_records cons_record
read_records-write_records zero rs h f = absurd (omega arith)
read_records-write_records (suc fuel) [] h f = unfold read_record read_u8 in refl
read_records-write_records (suc fuel) (r ∷ rs) h f = ground (
  arith,
  read-write_fits r.kind r.payload (write_records rs) h.0,
  read_records-write_records fuel rs h.1,
)

-- A record takes bytes off the stream.
read_record_shrinks :
    (bytes rest : List ℕ) (r : Record)
    → read_record bytes ≡ ok (r, rest)
    → length rest < length bytes
unfolding read_record read_u8 read_u32 read_payload read_exact
read_record_shrinks [] rest r h = cc
read_record_shrinks (b ∷ bytes) rest r h =
    ground (arith, length-drop 4 bytes, length-drop (be_value (take 4 bytes)) (drop 4 bytes))

-- The loop ends: with more fuel than there are bytes it never runs out.
pub read_records_total :
    (fuel : ℕ) (bytes : List ℕ)
    → length bytes < fuel
    → (r : List Record × ReadError) × (read_records fuel bytes ≡ some r)
unfolding read_records cons_record
read_records_total zero bytes h = absurd (omega arith)
read_records_total (suc fuel) bytes h = elim (Result-cases (read_record bytes)) [
  | inl (p, e) ↦
      let (s, q) =
        read_records_total fuel p.1 (omega (arith, read_record_shrinks bytes p.1 p.0 e)) in
      ((p.0 ∷ s.0, s.1), ground (arith, e, q))
  | inr (x, e) ↦ (([], x), rw (e, read_records))
]
