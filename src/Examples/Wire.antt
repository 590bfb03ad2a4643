-- ===== src/Examples/Wire.antt =====
-- The theorems on crates/protocol/src/lib.rs and on the records of server/src/quic.rs, at values.
use tunnelbridge.Prelude.{
  ◌≡◌, ◌⊎◌, ◌<◌, ◌≤◌, ℕ, ◌++◌, refl, none, some, List, [], ◌∷◌, arith, length,
}
use tunnelbridge.Prelude.Bytes.{be_value}
use tunnelbridge.Protocol.Frame.{
  encode_carrier_frame, decode_carrier_frame, decode-encode, decode_carrier_frame_lem, CarrierFrame,
}
use tunnelbridge.Record.{Record, read_record, write_record, max_record_size, ReadError, end_of_file}
use tunnelbridge.Record.Laws.{read_record_sound}
use tunnelbridge.Record.Stream.{
  read_records, write_records, read_records-write_records, read_records_total,
}
use tunnelbridge.Examples.Data.{uuid_bytes}

abbrev frame : List ℕ
frame = 1 ∷ 0 ∷ 0 ∷ 0 ∷ 0 ∷ 0 ∷ 0 ∷ 0 ∷ 0 ∷ 0 ∷ 0 ∷ 0 ∷ 0 ∷ 0 ∷ 0 ∷ 1 ∷ 2 ∷ 65 ∷ 66 ∷ []

decode-encode_example :
    decode_carrier_frame uuid_bytes (encode_carrier_frame uuid_bytes 1 258 (65 ∷ 66 ∷ []))
    ≡ some (record { kind = 1; id = 258; payload = 65 ∷ 66 ∷ [] })
decode-encode_example = decode-encode uuid_bytes 1 258 (65 ∷ 66 ∷ []) (omega arith)

decode_carrier_frame_example :
    ((length frame < 17) × (decode_carrier_frame uuid_bytes frame ≡ none))
    ⊎ ((17 ≤ length frame)
        × ((f : CarrierFrame) × (decode_carrier_frame uuid_bytes frame ≡ some f)
            × (encode_carrier_frame uuid_bytes f.kind f.id f.payload ≡ frame)))
decode_carrier_frame_example = decode_carrier_frame_lem uuid_bytes frame (ground arith)

abbrev body : List ℕ
body = 65 ∷ 66 ∷ []

read_record_sound_example :
    (length body ≤ max_record_size)
    × (write_record 1 body ++ (9 ∷ []) ≡ 1 ∷ 0 ∷ 0 ∷ 0 ∷ 2 ∷ 65 ∷ 66 ∷ 9 ∷ [])
unfolding read_record tunnelbridge.Record.read_u8 tunnelbridge.Record.read_u32
    tunnelbridge.Record.read_payload be_value
read_record_sound_example =
    read_record_sound (1 ∷ 0 ∷ 0 ∷ 0 ∷ 2 ∷ 65 ∷ 66 ∷ 9 ∷ []) (9 ∷ [])
      (record { kind = 1; payload = 65 ∷ 66 ∷ [] }) (ground arith) refl

abbrev two_records : List Record
two_records = record { kind = 0; payload = 65 ∷ [] } ∷ record { kind = 1; payload = [] } ∷ []

read_records-write_records_example :
    read_records 3 (write_records two_records) ≡ some (two_records, end_of_file)
read_records-write_records_example =
    read_records-write_records 3 two_records (ground arith) (omega arith)

read_records_total_example :
    (r : List Record × ReadError) × (read_records 5 (1 ∷ 0 ∷ 0 ∷ 0 ∷ []) ≡ some r)
read_records_total_example = read_records_total 5 (1 ∷ 0 ∷ 0 ∷ 0 ∷ []) (omega arith)
