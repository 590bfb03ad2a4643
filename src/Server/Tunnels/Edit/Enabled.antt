-- ===== src/Server/Tunnels/Edit/Enabled.antt =====
-- `edit` with a request that sets `enabled` and nothing else.
use tunnelbridge.Prelude.{◌≡◌, Bool, false, Option, some, none}
use tunnelbridge.Prelude.Text.{Text}
use tunnelbridge.Prelude.Result.{ok, >>-eq-ok, ok_injective}
use tunnelbridge.Net.{IpAddr}
use tunnelbridge.Protocol.{DateTime, Tunnel, UpdateTunnelRequest}
use tunnelbridge.Server.Config.{Config}
use tunnelbridge.Server.Tunnels.Validate.{validate_tunnel}
use tunnelbridge.Server.Tunnels.Edit.{
  edit, set_name, set_local_host, set_local_port, set_remote_port, check_kind, set_hostname,
  set_rest, or_keep,
}

abbrev pub only : Bool → UpdateTunnelRequest
only enabled = record {
  name = none;
  local_host = none;
  local_port = none;
  kind = none;
  local_scheme = none;
  remote_port = none;
  hostname = none;
  access_mode = none;
  allowed_cidrs = none;
  enabled = some enabled;
  allow_lan_target = false;
}

pub edit-only :
    (parse_ip : Text → Option IpAddr) (config : Config) (now : DateTime) (enabled : Bool)
    (t u : Tunnel)
    → edit parse_ip config now (only enabled) t ≡ ok u
    → (u.id ≡ t.id) × (u.enabled ≡ enabled)
unfolding edit set_name set_local_host set_local_port set_remote_port check_kind set_hostname
    set_rest or_keep
edit-only parse_ip config now enabled t u h =
    let (valid, same) = >>-eq-ok (validate_tunnel _) _ h in
    (cc (ok_injective same), cc (ok_injective same))
