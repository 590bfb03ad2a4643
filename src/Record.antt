-- ===== src/Record.antt =====
-- server/src/quic.rs, server/src/kcp.rs and desktop/src-tauri/src/agent.rs: `read_record` and
-- `write_record` (`read_direct_record` and `write_direct_record`), the same three times. A reader is
-- the list of the bytes that are still to come; at its end the peer has closed the stream.
use tunnelbridge.Prelude.{
  ℕ, zero, suc, ◌+◌, ◌-◌, ◌*◌, ◌%◌, ◌^◌, ◌≤◌, ◌<◌, List, [], ◌∷◌, ◌++◌, ltb, leb, length, take,
  drop, if◌then◌else◌,
}
use tunnelbridge.Prelude.Bytes.{be_bytes, be_value}
use tunnelbridge.Prelude.Result.{Result, ok, err, ◌>>=◌, ◌>>◌, ensure}
pub mod Laws
pub mod Stream

abbrev pub record_control : ℕ
record_control = 0

abbrev pub record_binary : ℕ
record_binary = 1

abbrev pub max_record_size : ℕ
max_record_size = 16 * 1024 * 1024

pub data ReadError : Type 0 where
  end_of_file too_large : ReadError

-- `AsyncReadExt::read_exact` for `n` bytes: what was read, and what is still to come.
pub read_exact : ℕ → List ℕ → Result ReadError (List ℕ × List ℕ)
read_exact n bytes =
    if ltb (length bytes) n then err end_of_file else ok (take n bytes, drop n bytes)

unfoldable pub read_u8 : List ℕ → Result ReadError (ℕ × List ℕ)
read_u8 [] = err end_of_file
read_u8 (b ∷ bs) = ok (b, bs)

unfoldable pub read_u32 : List ℕ → Result ReadError (ℕ × List ℕ)
unfolding read_exact
read_u32 bytes = do (word, rest) ← read_exact 4 bytes; ok (be_value word, rest)

pub record Record : Type 0 where
  pub kind : ℕ
  pub payload : List ℕ

-- What `read_record` does once it has the kind and the length.
unfoldable pub read_payload : ℕ → ℕ → List ℕ → Result ReadError (Record × List ℕ)
read_payload kind size bytes = do
  ensure (leb size max_record_size) too_large
  (payload, rest) ← read_exact size bytes
  ok (record { kind = kind; payload = payload }, rest)

unfoldable pub read_record : List ℕ → Result ReadError (Record × List ℕ)
read_record bytes = do
  (kind, bytes) ← read_u8 bytes
  (size, bytes) ← read_u32 bytes
  read_payload kind size bytes

-- `payload.len() as u32` keeps the low 32 bits.
unfoldable pub write_record : ℕ → List ℕ → List ℕ
write_record kind payload = kind ∷ (be_bytes 4 (length payload % 2 ^ 32) ++ payload)
