-- ===== src/Examples/Created.antt =====
-- The theorem on a tunnel that a device creates, at values.
use tunnelbridge.Server.Listeners.{NewListener}
use tunnelbridge.Server.Tunnels.Validate.Laws.{IsAllowedTarget}
use tunnelbridge.Prelude.{false, ◌≡◌, refl, some, List, [], ◌∷◌, arith}
use tunnelbridge.Prelude.Text.{codes}
use tunnelbridge.Prelude.Result.{ok}
use tunnelbridge.Server.Headers.{Headers}
use tunnelbridge.Server.Auth.{require_device, DeviceIdentity}
use tunnelbridge.Server.State.{AppState}
use tunnelbridge.Protocol.{Tunnel}
use tunnelbridge.Server.Api.Handlers.{agent_create_tunnel}
use tunnelbridge.Server.Tunnels.Store.{new_tunnel}
use tunnelbridge.Server.Api.Status.{decorate_tunnel}
use tunnelbridge.Server.Api.Handlers.Created.{Created, agent_create_tunnel_lem}
use tunnelbridge.Examples.Data.{columns, hash_token, parse_ip, state, db, request}
use mathlib.Core.Option.{none}

abbrev headers : Headers
headers = (codes "authorization", some (codes "Bearer secret")) ∷ []

abbrev listener : NewListener
listener = record { token = 3; bound = some false }

abbrev after : AppState
after = (agent_create_tunnel columns hash_token parse_ip state headers request 101 listener 9).1

abbrev made : Tunnel
made = decorate_tunnel after (new_tunnel 101 9 7 request (some 20000) none)

agent_create_tunnel_example :
    (agent : DeviceIdentity) × (require_device columns hash_token db headers ≡ ok agent)
    × Created state 101 agent.id (some false) (made, after)
    × IsAllowedTarget parse_ip request.allow_lan_target made.local_host
unfolding agent_create_tunnel require_device tunnelbridge.Server.Headers.header
    tunnelbridge.Prelude.list_beq tunnelbridge.Prelude.Text.strip_prefix tunnelbridge.Prelude.find
    columns tunnelbridge.Server.Tunnels.Store.create
    tunnelbridge.Server.Tunnels.Validate.validate_create tunnelbridge.Prelude.Text.is_empty
    tunnelbridge.Prelude.Text.trim tunnelbridge.Server.Tunnels.Validate.validate_local_host
    tunnelbridge.Prelude.Text.utf8_len tunnelbridge.Prelude.Text.contains_whitespace
    tunnelbridge.Server.Tunnels.Validate.is_loopback_host
    tunnelbridge.Server.Tunnels.Validate.validate_kind_scheme
    tunnelbridge.Server.Tunnels.Validate.validate_hostname tunnelbridge.Net.is_loopback
    tunnelbridge.Prelude.any tunnelbridge.Prelude.Map.contains_key tunnelbridge.Prelude.Map.get
    tunnelbridge.Prelude.Map.insert tunnelbridge.Prelude.Map.remove
    tunnelbridge.Prelude.Text.is_whitespace tunnelbridge.Server.Tunnels.Store.finish
    tunnelbridge.Server.Db.insert_tunnel tunnelbridge.Server.Db.row_check
    tunnelbridge.Server.Tunnels.Rows.tunnel_to_row tunnelbridge.Server.Tunnels.Rows.kind_str
    new_tunnel tunnelbridge.Server.Tunnels.Rows.scheme_str tunnelbridge.Server.Db.has_device
    tunnelbridge.Server.Tunnels.Validate.allowlist_empty
    tunnelbridge.Server.Tunnels.Ports.allocate_port tunnelbridge.Server.Tunnels.Ports.find_port
agent_create_tunnel_example =
    agent_create_tunnel_lem columns hash_token parse_ip state after headers request 101 listener 9
      made (omega arith) refl
