-- ===== src/Examples/Commands.antt =====
-- The theorems on the commands of the desktop application, at values.
use tunnelbridge.Prelude.{
  ◌≡◌, refl, sym, subst, ◌∙◌, ap, inl, inr, Bool, true, false, Option, none, some, ℕ, List, [], ◌∷◌,
  ◌++◌, In, All, arith,
}
use tunnelbridge.Prelude.Text.{Text, codes, trim}
use tunnelbridge.Prelude.Result.{ok, ok_injective}
use tunnelbridge.Protocol.{Uuid, Tunnel, TransportMode}
use tunnelbridge.Server.Error.{Message}
use tunnelbridge.Server.Db.{Db, TunnelRow}
use tunnelbridge.Server.Auth.{require_device, DeviceIdentity}
use tunnelbridge.Server.Tunnels.Rows.{tunnel_to_row, row_to_tunnel}
use tunnelbridge.Server.Tunnels.Queries.Laws.{Has}
use tunnelbridge.Server.Tunnels.Store.Enabled.{Written}
use tunnelbridge.Server.Api.Status.{decorate_tunnel}
use tunnelbridge.Agent.Runtime.{AgentConfig, new}
use tunnelbridge.Agent.Config.{App}
use tunnelbridge.Agent.Commands.{credentials, set_all_enabled}
use tunnelbridge.Agent.Commands.Enabled.{Shows}
use tunnelbridge.Relay.Service.{World, Draws, bearer}
use tunnelbridge.Relay.Service.Laws.{HoldsIn, Holds, Ready}
use tunnelbridge.Relay.Service.Kept.{api, set_all_enabled_served}
use tunnelbridge.Examples.Data.{columns, hash_token, parse_ip, state, db, tunnel}

abbrev who : DeviceIdentity
who = record { id = 7; name = codes "laptop" }

abbrev draws : Draws
draws = record {
  id_of = λ n. n;
  listener_of = λ n. record { token = n; bound = none };
  now_of = λ n. n;
}

abbrev text_of : Message → Text
text_of m = []

abbrev server_row : TunnelRow
unfolding tunnel_to_row
server_row = tunnel_to_row columns tunnel

abbrev world : World
world = record { state = record state { db = record db { tunnels = server_row ∷ [] } }; served = 1 }

abbrev shown : Tunnel
unfolding decorate_tunnel
shown = decorate_tunnel world.state tunnel

abbrev pub agent_config : AgentConfig
agent_config = record {
  server_url = codes "https://relay.example.com";
  device_name = codes "laptop";
  installation_id = 7;
  transport_mode = TransportMode.kcp;
  quic_port = 443;
  kcp_port = 4000;
}

abbrev app : App
app = record {
  runtime = record new { config = some agent_config; tunnels = shown ∷ [] };
  keychain = (7 ∷ [], codes "secret") ∷ [];
  config_file = none;
  restarts = 0;
}

abbrev pub one_text : Uuid → Text
one_text id = id ∷ []

read_back : row_to_tunnel columns server_row ≡ ok tunnel
unfolding row_to_tunnel tunnelbridge.Server.Tunnels.Rows.parse_access_mode
    tunnelbridge.Prelude.list_beq server_row tunnelbridge.Server.Tunnels.Rows.access_mode_str
    columns tunnelbridge.Server.Tunnels.Rows.parse_kind tunnelbridge.Server.Tunnels.Rows.kind_str
    tunnelbridge.Server.Tunnels.Rows.parse_scheme tunnelbridge.Server.Tunnels.Rows.scheme_str
    tunnel_to_row
read_back = refl

world_Ready : Ready columns hash_token (codes "secret") who world
unfolding require_device tunnelbridge.Server.Headers.header bearer tunnelbridge.Prelude.list_beq
    tunnelbridge.Prelude.Text.strip_prefix tunnelbridge.Prelude.find columns server_row Written
    tunnel_to_row tunnelbridge.Server.Auth.authenticate_device_token
world_Ready = record {
  known = refl;
  written = λ r i. elim i [ inl e ↦ (100, ap TunnelRow.id e) | inr bad ↦ absurd bad ];
}

shown_Holds : Holds columns hash_token (codes "secret") who world shown
unfolding HoldsIn Has tunnelbridge.Prelude.list_beq server_row columns decorate_tunnel shown
    tunnel_to_row
shown_Holds = (tunnel, (server_row, inl refl, refl, read_back), refl)

only_shown :
    (u : Tunnel) → Holds columns hash_token (codes "secret") who world u → In u (shown ∷ [])
unfolding HoldsIn Has shown decorate_tunnel
only_shown u (t, (r, i, mine, read), same) = elim i [
  | inr bad ↦ absurd bad
  | inl e ↦
      let back : row_to_tunnel columns server_row ≡ ok t =
        subst (λ (x : TunnelRow). row_to_tunnel columns x ≡ ok t) e read in
      inl (same ∙ ap (decorate_tunnel world.state) (ok_injective (sym back ∙ read_back)))
]

app_Shows : Shows (Holds columns hash_token (codes "secret") who) world (shown ∷ [])
unfolding Shows
app_Shows = (only_shown, (shown_Holds, tt))

has_token :
    credentials
      (api columns hash_token
        (codes "secret")
        who
        text_of
        parse_ip
        []
        []
        draws
        []
        one_text
        (codes "https://relay.example.com"))
      one_text
      (codes "no entry")
      app
    ≡ ok (agent_config, codes "secret")
unfolding credentials tunnelbridge.Prelude.Map.get tunnelbridge.Prelude.list_beq columns
    tunnelbridge.Agent.Config.load_token tunnelbridge.Agent.Config.token_entry
    tunnelbridge.Relay.Service.http set_all_enabled shown
    tunnelbridge.Server.Api.Handlers.agent_update_tunnel require_device
    tunnelbridge.Server.Headers.header tunnelbridge.Prelude.Text.strip_prefix
    tunnelbridge.Prelude.find tunnelbridge.Server.Tunnels.Store.update
    tunnelbridge.Server.Db.select_tunnel server_row row_to_tunnel
has_token = refl

succeeds :
    (set_all_enabled
      (api columns hash_token
        (codes "secret")
        who
        text_of
        parse_ip
        []
        []
        draws
        []
        one_text
        (codes "https://relay.example.com"))
      one_text
      (codes "no entry")
      app
      world
      false).0
    ≡ ok tt
unfolding credentials tunnelbridge.Prelude.Map.get tunnelbridge.Prelude.list_beq columns
    tunnelbridge.Agent.Config.load_token tunnelbridge.Agent.Config.token_entry
    tunnelbridge.Relay.Service.http tunnelbridge.Relay.Service.serve
    tunnelbridge.Relay.Service.route tunnelbridge.Relay.Service.answer bearer set_all_enabled
    tunnelbridge.Agent.Commands.refresh_tunnels tunnelbridge.Agent.Commands.enable_each
    tunnelbridge.Agent.Commands.as_agent tunnelbridge.Agent.Commands.request
    tunnelbridge.Agent.Commands.is_success tunnelbridge.Agent.Commands.as_tunnels
    tunnelbridge.Agent.Commands.as_tunnel tunnelbridge.Agent.Commands.only_enabled
    tunnelbridge.Agent.Commands.differs tunnelbridge.Server.Api.Handlers.agent_list_tunnels
    tunnelbridge.Server.Api.Handlers.agent_update_tunnel tunnelbridge.Server.Api.Handlers.as_device
    tunnelbridge.Server.Api.Handlers.settle require_device
    tunnelbridge.Server.Auth.authenticate_device_token tunnelbridge.Server.Headers.header
    tunnelbridge.Prelude.Text.strip_prefix tunnelbridge.Prelude.find tunnelbridge.Prelude.filter
    tunnelbridge.Prelude.any tunnelbridge.Server.Tunnels.Store.update
    tunnelbridge.Server.Tunnels.Store.get tunnelbridge.Server.Db.select_tunnel row_to_tunnel
    tunnelbridge.Server.Tunnels.Rows.parse_access_mode
    tunnelbridge.Server.Tunnels.Rows.access_mode_str tunnelbridge.Server.Tunnels.Rows.parse_kind
    tunnelbridge.Server.Tunnels.Rows.kind_str tunnelbridge.Server.Tunnels.Rows.parse_scheme
    tunnelbridge.Server.Tunnels.Rows.scheme_str tunnel_to_row server_row shown decorate_tunnel
    tunnelbridge.Server.Tunnels.Edit.edit tunnelbridge.Server.Tunnels.Validate.validate_tunnel
    tunnelbridge.Server.Tunnels.Validate.validate_endpoint
    tunnelbridge.Server.Tunnels.Validate.validate_kind_scheme
    tunnelbridge.Server.Tunnels.Validate.allowlist_empty tunnelbridge.Prelude.Text.trim
    tunnelbridge.Server.Db.update_tunnel tunnelbridge.Server.Db.row_check
    tunnelbridge.Server.Db.others tunnelbridge.Server.Tunnels.Store.finish
    tunnelbridge.Server.Tunnels.Store.set_columns tunnelbridge.Server.Tunnels.Store.foreign_owner
    tunnelbridge.Server.Tunnels.Queries.list_for_agent tunnelbridge.Server.Db.order_by_created_at
    tunnelbridge.Prelude.Map.insert tunnelbridge.Prelude.Map.remove
    tunnelbridge.Server.Carrier.sync_agent tunnelbridge.Server.Carrier.send_lossy
    tunnelbridge.Server.Gateway.Connection.send_control
    tunnelbridge.Server.Listeners.reconcile_listener tunnelbridge.Server.Listeners.stop_listener
    tunnelbridge.Server.Listeners.start_listener tunnelbridge.Server.Listeners.listens
    tunnelbridge.Server.Devices.audit
succeeds = refl

set_all_enabled_example :
    Shows
      (Holds columns hash_token (codes "secret") who)
      (set_all_enabled
        (api columns hash_token
          (codes "secret")
          who
          text_of
          parse_ip
          []
          []
          draws
          []
          one_text
          (codes "https://relay.example.com"))
        one_text
        (codes "no entry")
        app
        world
        false).2
      (set_all_enabled
        (api columns hash_token
          (codes "secret")
          who
          text_of
          parse_ip
          []
          []
          draws
          []
          one_text
          (codes "https://relay.example.com"))
        one_text
        (codes "no entry")
        app
        world
        false).1.runtime.tunnels
    × All
        (λ t. t.enabled ≡ false)
        (set_all_enabled
          (api columns hash_token
            (codes "secret")
            who
            text_of
            parse_ip
            []
            []
            draws
            []
            one_text
            (codes "https://relay.example.com"))
          one_text
          (codes "no entry")
          app
          world
          false).1.runtime.tunnels
set_all_enabled_example =
    set_all_enabled_served columns hash_token (codes "secret") who text_of parse_ip [] [] draws []
      one_text (codes "https://relay.example.com") one_text (codes "no entry") app agent_config
      world false refl has_token world_Ready app_Shows succeeds
