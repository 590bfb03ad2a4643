-- ===== src/Server/Carrier/Direct/Admitted.antt =====
-- Whom server/src/quic.rs `accept` and server/src/kcp.rs `run_stream` admit.
use tunnelbridge.Prelude.{
  ◌≡◌, ◌⊎◌, sym, ap, ℕ, true, Option, some, List, ◌++◌, arith, ◌==◌, nat_eq, nat_beq_iff, inl, inr,
  All,
}
use tunnelbridge.Prelude.Text.{Text}
use tunnelbridge.Prelude.Bytes.{IsByte}
use tunnelbridge.Prelude.Map.{get}
use tunnelbridge.Prelude.Result.{
  Result, ok, err, Result-cases, >>=-eq-ok, >>-eq-ok, ok_or, ensure, ok_injective,
}
use tunnelbridge.Protocol.{
  Uuid, DateTime, ActiveTransport, AgentControlMessage, hello, DirectCarrierAuth, protocol_version,
  CarrierCapabilities,
}
use tunnelbridge.Record.{Record, record_control, read_record, write_record}
use tunnelbridge.Record.Laws.{read_record_sound}
use tunnelbridge.Server.Db.{Db}
use tunnelbridge.Server.State.{AppState}
use tunnelbridge.Server.Tunnels.Rows.{Columns}
use tunnelbridge.Server.Auth.{DeviceIdentity, authenticate_device_token}
use tunnelbridge.Server.Devices.Revoked.{Vouches, authenticate_device_token_sound}
use tunnelbridge.Server.Carrier.Reconnect.{attach_direct_agents}
use tunnelbridge.Server.Carrier.Direct.{
  DirectError, is_hello, first_record, known_device, admit, accept_direct,
}

-- The message is a `Hello` of the server's version.
pub IsHello : AgentControlMessage → Type 0
IsHello m =
    (agent_id : Uuid) × (name : Text) × (capabilities : CarrierCapabilities) × (version : ℕ) × (m
      ≡ hello protocol_version agent_id name capabilities version)

IsHello-is_hello : (m : AgentControlMessage) → is_hello m ≡ true → IsHello m
unfolding IsHello is_hello
IsHello-is_hello (hello version agent_id name capabilities config_version) h = (
  agent_id,
  name,
  capabilities,
  config_version,
  ground (arith, nat_beq_iff version protocol_version),
)
IsHello-is_hello m h = cc

first_record_ok :
    (stream rest : List ℕ) (r : Record)
    → first_record (read_record stream) ≡ ok (r, rest)
    → read_record stream ≡ ok (r, rest)
unfolding first_record
first_record_ok stream rest r h = elim (Result-cases (read_record stream)) [
  | inl (p, e) ↦ ground (arith, e)
  | inr (x, e) ↦ absurd (ground (arith, e))
]

known_device_ok :
    {E : Type 0} (r : Result E DeviceIdentity) (who : DeviceIdentity)
    → known_device r ≡ ok who
    → r ≡ ok who
unfolding known_device
known_device_ok (ok who') who h = cc
known_device_ok (err e) who h = cc

module _ (columns : Columns) (hash_token : Text → Text)
    (parse_auth : List ℕ → Option DirectCarrierAuth) where
  -- The stream begins with a control record in which a device names its token, which vouches for it, and
  -- speaks the server's version of the protocol; `rest` follows the record.
  pub Presents : Db → List ℕ → DeviceIdentity → List ℕ → Type 0
  Presents db stream who rest =
      (payload : List ℕ) × (auth : DirectCarrierAuth) × (write_record record_control payload ++ rest
        ≡ stream)
      × (parse_auth payload ≡ some auth)
      × Vouches columns hash_token db.devices auth.token who
      × IsHello auth.hello_message

  admit_sound :
      (db : Db) (stream rest : List ℕ) (who : DeviceIdentity)
      → All IsByte stream
      → admit columns hash_token parse_auth db stream ≡ ok (who, rest)
      → Presents db stream who rest
  unfolding admit Presents
  admit_sound db stream rest who bytes h =
      let (p, read, h1) = >>=-eq-ok (first_record (read_record stream)) _ h in
      let (is_control, h2) = >>-eq-ok (ensure (p.0.kind == record_control) _) _ h1 in
      let (auth, parsed, h3) = >>=-eq-ok (ok_or (parse_auth p.0.payload) _) _ h2 in
      let (who', known, h4) =
        >>=-eq-ok (known_device (authenticate_device_token columns hash_token db auth.token)) _
          h3 in
      let (greets, h5) = >>-eq-ok (ensure (is_hello auth.hello_message) _) _ h4 in
      let written =
        (read_record_sound stream p.1 p.0 bytes (first_record_ok stream p.1 p.0 read)).1 in
      let ended : ◌≡◌ {A = DeviceIdentity × List ℕ} (who', p.1) (who, rest) = ok_injective h5 in
      let control : p.0.kind ≡ record_control =
        ground (arith, is_control, nat_beq_iff p.0.kind record_control) in
      (
        p.0.payload,
        auth,
        rw (sym (ap (λ q. q.1) ended), sym control) written,
        ground (arith, parsed),
        authenticate_device_token_sound columns hash_token db auth.token who (
            rw (sym (ap (λ q. q.0) ended)) (
              known_device_ok (authenticate_device_token columns hash_token db auth.token) who'
                known)),
        IsHello-is_hello auth.hello_message (ground (arith, greets)),
      )

  -- A direct carrier either starts no session and changes nothing, or its first record is a control
  -- record with a token that vouches for a device that is not revoked and with a `Hello` of the
  -- protocol's version, and then the new session is that device's. The stream holds bytes.
  pub accept_direct_lem :
      (s : AppState) (transport : ActiveTransport) (session_id : Uuid) (now : DateTime)
      (stream : List ℕ)
      → All IsByte stream
      → ((e : DirectError) × (accept_direct columns hash_token parse_auth s transport session_id now
              stream
            ≡ (err e, s)))
        ⊎ ((who : DeviceIdentity) × (rest : List ℕ) × ((accept_direct columns hash_token parse_auth
                s transport session_id now stream).0
              ≡ ok (who, rest))
            × Presents s.db stream who rest
            × (get
                  (accept_direct columns hash_token parse_auth s transport session_id now
                    stream).1.agents
                  who.id
                ≡ some (record { session_id = session_id; transport = transport })))
  unfolding accept_direct
  accept_direct_lem s transport session_id now stream bytes =
      elim (Result-cases (admit columns hash_token parse_auth s.db stream)) [
        | inr (e, refused) ↦ inl (e, ground (arith, refused))
        | inl ((who, rest), admitted) ↦ inr (
          who,
          rest,
          ground (arith, admitted),
          admit_sound s.db stream rest who bytes admitted,
          rw (accept_direct, admitted)
              (attach_direct_agents columns s who.id session_id transport now),
        )
      ]
