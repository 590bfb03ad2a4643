-- ===== src/Relay/Opening.antt =====
-- A direct carrier is opened: desktop/src-tauri/src/agent.rs `run_quic_carrier` or
-- desktop/src-tauri/src/kcp.rs `run` at one end, server/src/quic.rs `accept` or server/src/kcp.rs
-- `run_stream` at the other.
use tunnelbridge.Prelude.{
  ◌≡◌, refl, zero, suc, Option-cases, inl, inr, ◌≤◌, Option, none, some, List, [], ◌∷◌, ◌++◌, arith,
  ==_refl, nat_eq, length, ℕ, append-nil,
}
use tunnelbridge.Prelude.Text.{Text}
use tunnelbridge.Prelude.Map.{get, get-insert}
use tunnelbridge.Prelude.Result.{ok}
use tunnelbridge.Protocol.{
  Uuid, DateTime, Tunnel, AgentControlMessage, welcome, config_sync, DirectCarrierAuth,
  protocol_version, ActiveTransport,
}
use tunnelbridge.Protocol.Frame.{UuidBytes}
use tunnelbridge.Record.{Record, record_control, max_record_size, write_record}
use tunnelbridge.Record.Laws.{read-write_fits}
use tunnelbridge.Server.State.{AppState}
use tunnelbridge.Server.Tunnels.Rows.{Columns}
use tunnelbridge.Server.Tunnels.Queries.{list_for_agent}
use tunnelbridge.Server.Auth.{DeviceIdentity, authenticate_device_token}
use tunnelbridge.Server.Bridge.{running}
use tunnelbridge.Server.Carrier.{server_capabilities, attach_direct}
use tunnelbridge.Server.Carrier.Direct.{
  admit, accept_direct, Sent, on_stream, as_datagram, write_control, first_record, known_device,
  is_hello,
}
use tunnelbridge.Server.Carrier.Greeting.{queued, queued-attach_direct}
use tunnelbridge.Agent.Runtime.{Session, AgentConfig, online, set_status, set_transport, log}
use tunnelbridge.Agent.Dispatch.{Target, dispatch_control_message, with_runtime, transport_or_quic}
use tunnelbridge.Agent.Direct.{
  Direct, direct_auth, transport_of, start_direct, take_records, take_record,
}

-- The records among what a writer gives to the transport.
record_of : Sent → List Record
record_of (on_stream r) = r ∷ []
record_of (as_datagram bytes) = []

-- The records of the first `n` control messages that the server's writer takes.
pub written : (AgentControlMessage → List ℕ) → ℕ → AppState → Uuid → List Record
unfolding record_of
written message_bytes zero s session_id = []
written message_bytes (suc n) s session_id = elim (write_control message_bytes s session_id) [
  | none ↦ []
  | some (sent, s') ↦ record_of sent ++ written message_bytes n s' session_id
]

written_lem :
    (message_bytes : AgentControlMessage → List ℕ) (s : AppState) (session_id : Uuid)
    (m n : AgentControlMessage)
    → queued s session_id ≡ m ∷ n ∷ []
    → written message_bytes 2 s session_id
      ≡ record { kind = record_control; payload = message_bytes m }
        ∷ record { kind = record_control; payload = message_bytes n }
        ∷ []
unfolding written record_of write_control queued
written_lem message_bytes s session_id m n h = elim (Option-cases (get s.carriers session_id)) [
  | inl gone ↦ absurd (ground (arith, gone))
  | inr (c, found) ↦ ground (
    arith,
    found,
    get-insert s.carriers session_id session_id (record c { control = n ∷ [] }),
    ==_refl session_id,
  )
]

-- The device's first message, as serde reads it back, is admitted.
admit_auth :
    (columns : Columns) (hash_token : Text → Text) (parse_auth : List ℕ → Option DirectCarrierAuth)
    (auth_bytes : List ℕ) (direct : Direct) (config : AgentConfig) (token : Text) (s : AppState)
    (who : DeviceIdentity)
    → parse_auth auth_bytes ≡ some (direct_auth direct config token)
    → length auth_bytes ≤ max_record_size
    → authenticate_device_token columns hash_token s.db token ≡ ok who
    → admit columns hash_token parse_auth s.db (write_record record_control auth_bytes)
      ≡ ok (who, [])
unfolding admit first_record known_device is_hello direct_auth
admit_auth columns hash_token parse_auth auth_bytes direct config token s who parsed fits known =
    let read =
      rw (append-nil (write_record record_control auth_bytes)) at
        (read-write_fits record_control auth_bytes [] fits) in
    rw (read, parsed, known) refl

module _ (closed : Text) (uuid : UuidBytes)
    (parse_message : List ℕ → Option AgentControlMessage) where
  -- The agent takes the greeting and its tunnels.
  take_opening :
      (b : Session) (now at : DateTime) (target : Target) (greeting sync : List ℕ)
      (transport : ActiveTransport) (items : List Tunnel)
      → parse_message greeting
        ≡ some (welcome protocol_version now server_capabilities (some transport))
      → parse_message sync ≡ some (config_sync items)
      → take_records closed uuid parse_message b at target (
          record { kind = record_control; payload = greeting }
          ∷ record { kind = record_control; payload = sync }
          ∷ [])
        ≡ (
          running,
          record b {
            runtime = record b.runtime { transport = (some transport, none); tunnels = items };
          },
        )
  unfolding take_records take_record dispatch_control_message with_runtime set_transport
      transport_or_quic
  take_opening b now at target greeting sync transport items greeted synced =
      ground (arith, greeted, synced)

module _ (columns : Columns) (hash_token : Text → Text)
    (parse_auth : List ℕ → Option DirectCarrierAuth) (closed : Text) (uuid : UuidBytes)
    (parse_message : List ℕ → Option AgentControlMessage)
    (message_bytes : AgentControlMessage → List ℕ) where
  -- A device with a token that is accepted opens a direct carrier. If serde reads back what it wrote of
  -- the three messages, the device's first record is within the limit, and its tunnels can be listed, then
  -- the server admits the device, the first two control records of the session are the greeting and the
  -- tunnels, and once the agent has taken them it is online with this transport and these tunnels.
  pub direct_opening :
      (auth_bytes : List ℕ) (direct : Direct) (config : AgentConfig) (token : Text) (s : AppState)
      (a : Session) (session_id : Uuid) (now at : DateTime) (target : Target) (who : DeviceIdentity)
      (items : List Tunnel)
      → parse_auth auth_bytes ≡ some (direct_auth direct config token)
      → length auth_bytes ≤ max_record_size
      → parse_message (
          message_bytes
            (welcome protocol_version now server_capabilities (some (transport_of direct))))
        ≡ some (welcome protocol_version now server_capabilities (some (transport_of direct)))
      → parse_message (message_bytes (config_sync items)) ≡ some (config_sync items)
      → authenticate_device_token columns hash_token s.db token ≡ ok who
      → list_for_agent columns s.db who.id ≡ ok items
      → let opened =
          accept_direct columns hash_token parse_auth s
            (transport_of direct)
            session_id
            now
            (write_record record_control auth_bytes) in
        let agent =
          take_records closed uuid parse_message
            (start_direct direct a at)
            at
            target
            (written message_bytes 2 opened.1 session_id) in
        (opened.0 ≡ ok (who, []))
        × (written message_bytes 2 opened.1 session_id
            ≡ record {
              kind = record_control;
              payload =
                  message_bytes
                    (welcome protocol_version now server_capabilities (some (transport_of direct)));
            }
              ∷ record { kind = record_control; payload = message_bytes (config_sync items) }
              ∷ [])
        × (agent.0 ≡ running)
        × (agent.1.runtime.status.0 ≡ online)
        × (agent.1.runtime.transport ≡ (some (transport_of direct), none))
        × (agent.1.runtime.tunnels ≡ items)
  unfolding accept_direct
  direct_opening auth_bytes direct config token s a session_id now at target who items auth_read
        fits welcome_read sync_read known listed =
      let admitted =
        admit_auth columns hash_token parse_auth auth_bytes direct config token s who auth_read fits
          known in
      let accepted : accept_direct columns hash_token parse_auth s (transport_of direct) session_id
            now (write_record record_control auth_bytes)
          ≡ (ok (who, []), attach_direct columns s who.id session_id (transport_of direct) now) =
        rw (accept_direct, admitted) refl in
      let wait =
        queued-attach_direct columns s who.id session_id (transport_of direct) now items listed in
      let records =
        written_lem message_bytes
          (attach_direct columns s who.id session_id (transport_of direct) now) session_id _ _
          wait in
      let taken =
        take_opening closed uuid parse_message (start_direct direct a at) now at target _ _
          (transport_of direct) items welcome_read sync_read in
      (
        rw (accepted) refl,
        rw (accepted) records,
        rw (accepted, records, taken) refl,
        rw (accepted, records, taken)
            (unfold start_direct with_runtime set_status set_transport log in refl),
        rw (accepted, records, taken) refl,
        rw (accepted, records, taken) refl,
      )
