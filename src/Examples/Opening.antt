-- ===== src/Examples/Opening.antt =====
-- The theorems on the opening of a direct carrier, at values.
use tunnelbridge.Prelude.{
  ◌≡◌, ◌⊎◌, refl, true, ℕ, ◌==◌, nat_eq, if◌then◌else◌, Option, none, some, List, [], ◌∷◌, ◌++◌,
  arith, length,
}
use tunnelbridge.Prelude.Text.{codes}
use tunnelbridge.Prelude.Map.{get}
use tunnelbridge.Prelude.Result.{ok, err}
use tunnelbridge.Protocol.{
  Tunnel, ActiveTransport, TransportMode, AgentControlMessage, welcome, config_sync,
  DirectCarrierAuth, protocol_version,
}
use tunnelbridge.Record.{record_control, write_record}
use tunnelbridge.Server.Db.{Db}
use tunnelbridge.Server.State.{AppState}
use tunnelbridge.Server.Auth.{DeviceIdentity}
use tunnelbridge.Server.Bridge.{running}
use tunnelbridge.Server.Carrier.{server_capabilities}
use tunnelbridge.Server.Carrier.Direct.{DirectError, accept_direct}
use tunnelbridge.Server.Carrier.Direct.Admitted.{Presents, accept_direct_lem}
use tunnelbridge.Server.Tunnels.Rows.{tunnel_to_row}
use tunnelbridge.Agent.Runtime.{Session, AgentConfig, new, online}
use tunnelbridge.Agent.Dispatch.{takes}
use tunnelbridge.Agent.Direct.{over_kcp, direct_auth, start_direct, take_records}
use tunnelbridge.Relay.Opening.{written, direct_opening}
use tunnelbridge.Examples.Data.{columns, hash_token, uuid_bytes, state, db, tunnel}

abbrev agent_config : AgentConfig
agent_config = record {
  server_url = codes "https://relay.example.com";
  device_name = codes "laptop";
  installation_id = 7;
  transport_mode = TransportMode.kcp;
  quic_port = 443;
  kcp_port = 4000;
}

abbrev auth : DirectCarrierAuth
auth = direct_auth over_kcp agent_config (codes "secret")

-- A reader that knows one message of three bytes.
abbrev parse_auth : List ℕ → Option DirectCarrierAuth
parse_auth bytes = if length bytes == 3 then some auth else none

abbrev items : List Tunnel
items = tunnel ∷ []

abbrev message_bytes : AgentControlMessage → List ℕ
message_bytes (welcome _ _ _ _) = 1 ∷ []
message_bytes (config_sync _) = 2 ∷ 2 ∷ []
message_bytes _ = []

abbrev parse_message : List ℕ → Option AgentControlMessage
parse_message bytes =
    if length bytes == 1
    then some (welcome protocol_version 5 server_capabilities (some ActiveTransport.kcp))
    else if length bytes == 2
    then some (config_sync items)
    else none

abbrev server : AppState
unfolding tunnel_to_row
server = record state { db = record db { tunnels = tunnel_to_row columns tunnel ∷ [] } }

abbrev agent : Session
agent = record { runtime = new; streams = []; outbound = []; is_open = true }

direct_opening_example :
    let opened =
      accept_direct columns hash_token parse_auth server ActiveTransport.kcp 71 5
        (write_record record_control (8 ∷ 8 ∷ 8 ∷ [])) in
    let after =
      take_records
        (codes "closed")
        uuid_bytes
        parse_message
        (start_direct over_kcp agent 6)
        6
        takes
        (written message_bytes 2 opened.1 71) in
    (opened.0 ≡ ok (record { id = 7; name = codes "laptop" }, []))
    × (written message_bytes 2 opened.1 71
        ≡ record { kind = record_control; payload = 1 ∷ [] }
          ∷ record { kind = record_control; payload = 2 ∷ 2 ∷ [] }
          ∷ [])
    × (after.0 ≡ running)
    × (after.1.runtime.status.0 ≡ online)
    × (after.1.runtime.transport ≡ (some ActiveTransport.kcp, none))
    × (after.1.runtime.tunnels ≡ items)
unfolding tunnelbridge.Agent.Direct.transport_of tunnelbridge.Server.Auth.authenticate_device_token
    tunnelbridge.Prelude.find server tunnelbridge.Prelude.list_beq columns
    tunnelbridge.Server.Tunnels.Queries.list_for_agent tunnelbridge.Server.Db.order_by_created_at
    tunnelbridge.Prelude.filter tunnelbridge.Server.Tunnels.Rows.row_to_tunnel
    tunnelbridge.Server.Tunnels.Rows.parse_access_mode
    tunnelbridge.Server.Tunnels.Rows.access_mode_str tunnelbridge.Server.Tunnels.Rows.parse_kind
    tunnelbridge.Server.Tunnels.Rows.kind_str tunnelbridge.Server.Tunnels.Rows.parse_scheme
    tunnelbridge.Server.Tunnels.Rows.scheme_str write_record tunnelbridge.Prelude.Bytes.be_bytes
direct_opening_example =
    direct_opening columns hash_token parse_auth (codes "closed") uuid_bytes parse_message
      message_bytes (8 ∷ 8 ∷ 8 ∷ []) over_kcp agent_config (codes "secret") server agent 71 5 6
      takes (record { id = 7; name = codes "laptop" }) items refl (omega arith) refl refl refl refl

accept_direct_example :
    ((e : DirectError) × (accept_direct columns hash_token parse_auth server ActiveTransport.kcp 71
          5
          (write_record record_control (8 ∷ 8 ∷ 8 ∷ []))
        ≡ (err e, server)))
    ⊎ ((who : DeviceIdentity) × (rest : List ℕ) × ((accept_direct columns hash_token parse_auth
            server ActiveTransport.kcp 71 5
            (write_record record_control (8 ∷ 8 ∷ 8 ∷ []))).0
          ≡ ok (who, rest))
        × Presents columns hash_token parse_auth server.db
            (write_record record_control (8 ∷ 8 ∷ 8 ∷ []))
            who
            rest
        × (get
              (accept_direct columns hash_token parse_auth server ActiveTransport.kcp 71 5
                (write_record record_control (8 ∷ 8 ∷ 8 ∷ []))).1.agents
              who.id
            ≡ some (record { session_id = 71; transport = ActiveTransport.kcp })))
unfolding write_record tunnelbridge.Prelude.Bytes.be_bytes
accept_direct_example =
    accept_direct_lem columns hash_token parse_auth server ActiveTransport.kcp 71 5
      (write_record record_control (8 ∷ 8 ∷ 8 ∷ [])) (omega arith)
