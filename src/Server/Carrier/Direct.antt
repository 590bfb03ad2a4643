-- ===== src/Server/Carrier/Direct.antt =====
-- A direct carrier of the server: server/src/quic.rs `accept` and server/src/kcp.rs `run_stream`, from
-- their first record on. What serde makes of a payload, and writes for a message, are parameters; the
-- bytes of the stream, the new identifier and the times are arguments.
pub mod Admitted
use tunnelbridge.Prelude.{
  ℕ, Bool, true, false, Option, none, some, List, [], ◌∷◌, ◌==◌, nat_eq, if◌then◌else◌, ◌&&◌,
}
use tunnelbridge.Prelude.Text.{Text}
use tunnelbridge.Prelude.Map.{get, insert}
use tunnelbridge.Prelude.Result.{Result, ok, err, ◌>>=◌, ◌>>◌, ensure, ok_or}
use tunnelbridge.Protocol.{
  Uuid, DateTime, ActiveTransport, AgentControlMessage, hello, DirectCarrierAuth, protocol_version,
  carrier_frame_datagram,
}
use tunnelbridge.Protocol.Frame.{UuidBytes}
use tunnelbridge.Record.{Record, ReadError, record_control, record_binary, read_record}
use tunnelbridge.Server.Db.{Db}
use tunnelbridge.Server.State.{AppState}
use tunnelbridge.Server.Tunnels.Rows.{Columns}
use tunnelbridge.Server.Auth.{DeviceIdentity, authenticate_device_token}
use tunnelbridge.Server.Carrier.{attach_direct, handle_direct}
use tunnelbridge.Server.Gateway.Connection.{route_carrier_frame}

-- Why a connection is given up before its session starts.
pub data DirectError : Type 0 where
  unreadable missing_auth not_auth invalid_token protocol_mismatch : DirectError

-- `matches!(auth.hello, Hello { protocol_version, .. } if protocol_version == PROTOCOL_VERSION)`
unfoldable pub is_hello : AgentControlMessage → Bool
is_hello (hello version _ _ _ _) = version == protocol_version
is_hello _ = false

-- `read_record(&mut reader).await?`
unfoldable pub first_record :
    Result ReadError (Record × List ℕ) → Result DirectError (Record × List ℕ)
first_record (ok r) = ok r
first_record (err e) = err unreadable

-- `.map_err(|_| anyhow!("invalid device token"))`
unfoldable pub known_device :
    {E : Type 0} → Result E DeviceIdentity → Result DirectError DeviceIdentity
known_device (ok who) = ok who
known_device (err e) = err invalid_token

module _ (columns : Columns) (hash_token : Text → Text)
    (parse_auth : List ℕ → Option DirectCarrierAuth) where
  -- The device that a connection speaks for, and the bytes after its first record.
  unfoldable pub admit : Db → List ℕ → Result DirectError (DeviceIdentity × List ℕ)
  unfolding first_record known_device is_hello
  admit db stream = do
    (first, rest) ← first_record (read_record stream)
    ensure (first.kind == record_control) missing_auth
    auth ← ok_or (parse_auth first.payload) not_auth
    who ← known_device (authenticate_device_token columns hash_token db auth.token)
    ensure (is_hello auth.hello_message) protocol_mismatch
    ok (who, rest)

  -- The session starts once the device is admitted.
  unfoldable pub accept_direct :
      AppState
      → ActiveTransport
      → Uuid
      → DateTime
      → List ℕ
      → Result DirectError (DeviceIdentity × List ℕ) × AppState
  unfolding admit
  accept_direct s transport session_id now stream = elim (admit s.db stream) [
    | err e ↦ (err e, s)
    | ok (who, rest) ↦ (ok (who, rest), attach_direct columns s who.id session_id transport now)
  ]

  -- The carriers of server/src/quic.rs and of server/src/kcp.rs.
  pub accept_quic :
      AppState → Uuid → DateTime → List ℕ → Result DirectError (DeviceIdentity × List ℕ) × AppState
  unfolding accept_direct
  accept_quic s = accept_direct s ActiveTransport.quic

  pub accept_kcp :
      AppState → Uuid → DateTime → List ℕ → Result DirectError (DeviceIdentity × List ℕ) × AppState
  unfolding accept_direct
  accept_kcp s = accept_direct s ActiveTransport.kcp

-- What one turn of the loop takes: the cancellation, a record or the failure to read one, and for QUIC
-- a datagram, which a task of its own reads.
pub data DirectEvent : Type 0 where
  cancelled record_failed : DirectEvent
  record_read : Record → DirectEvent
  datagram_read : List ℕ → DirectEvent

-- One turn; the Boolean says whether the loop goes on.
pub direct_turn :
    UuidBytes
    → (Text → Text)
    → (List ℕ → Option AgentControlMessage)
    → AppState
    → ℕ
    → Uuid
    → Uuid
    → DirectEvent
    → Bool × AppState
direct_turn uuid hash_token parse_message s now agent_id session_id cancelled = (false, s)
direct_turn uuid hash_token parse_message s now agent_id session_id record_failed = (false, s)
direct_turn uuid hash_token parse_message s now agent_id session_id (record_read r) = (
  true,
  if r.kind == record_binary
      then route_carrier_frame uuid s r.payload
      else handle_direct hash_token s now agent_id session_id (parse_message r.payload),
)
direct_turn uuid hash_token parse_message s now agent_id session_id (datagram_read bytes) =
    (true, route_carrier_frame uuid s bytes)

-- The loop of server/src/kcp.rs, which has no datagrams.
pub data KcpEvent : Type 0 where
  kcp_cancelled kcp_record_failed : KcpEvent
  kcp_record_read : Record → KcpEvent

pub kcp_turn :
    UuidBytes
    → (Text → Text)
    → (List ℕ → Option AgentControlMessage)
    → AppState
    → ℕ
    → Uuid
    → Uuid
    → KcpEvent
    → Bool × AppState
kcp_turn uuid hash_token parse_message s now agent_id session_id kcp_cancelled = (false, s)
kcp_turn uuid hash_token parse_message s now agent_id session_id kcp_record_failed = (false, s)
kcp_turn uuid hash_token parse_message s now agent_id session_id (kcp_record_read r) = (
  true,
  if r.kind == record_binary
      then route_carrier_frame uuid s r.payload
      else handle_direct hash_token s now agent_id session_id (parse_message r.payload),
)

-- What a writer gives to the transport.
pub data Sent : Type 0 where
  on_stream : Record → Sent
  as_datagram : List ℕ → Sent

-- `binary.first() == Some(&CARRIER_FRAME_DATAGRAM)`
unfoldable pub is_datagram : List ℕ → Bool
is_datagram [] = false
is_datagram (b ∷ bs) = b == carrier_frame_datagram

-- A binary frame over QUIC: `takes_datagrams` says whether `send_datagram` succeeds. Over KCP there are
-- no datagrams.
unfoldable pub send_binary : Bool → List ℕ → Sent
unfolding is_datagram
send_binary takes_datagrams frame =
    if is_datagram frame && takes_datagrams
    then as_datagram frame
    else on_stream (record { kind = record_binary; payload = frame })

-- A turn of the writer task: the oldest control message, or the oldest binary frame, leaves its queue.
unfoldable pub write_control :
    (AgentControlMessage → List ℕ) → AppState → Uuid → Option (Sent × AppState)
write_control message_bytes s session_id = elim (get s.carriers session_id) [
  | none ↦ none
  | some c ↦ elim c.control [
    | [] ↦ none
    | m ∷ ms ↦ some (
      on_stream (record { kind = record_control; payload = message_bytes m }),
      record s { carriers = insert s.carriers session_id (record c { control = ms }) },
    )
  ]
]

unfoldable pub write_binary : Bool → AppState → Uuid → Option (Sent × AppState)
unfolding send_binary
write_binary takes_datagrams s session_id = elim (get s.carriers session_id) [
  | none ↦ none
  | some c ↦ elim c.binary [
    | [] ↦ none
    | frame ∷ frames ↦ some (
      send_binary takes_datagrams frame,
      record s { carriers = insert s.carriers session_id (record c { binary = frames }) },
    )
  ]
]

-- The same turn of the writer task of server/src/kcp.rs.
pub write_kcp_binary : AppState → Uuid → Option (Sent × AppState)
unfolding write_binary
write_kcp_binary = write_binary false
