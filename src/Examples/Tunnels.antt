-- ===== src/Examples/Tunnels.antt =====
-- The theorems on server/src/tunnels.rs, at values.
use tunnelbridge.Prelude.{
  ◌≡◌, ◌≢◌, ◌↔◌, ◌+◌, ◌≤◌, ℕ, refl, Bool, true, false, Option, none, some, List, [], ◌∷◌, arith,
  nat_eq, nat_beq, ◌==◌, if◌then◌else◌,
}
use tunnelbridge.Prelude.Text.{codes, text_eq}
use tunnelbridge.Prelude.Result.{ok, err}
use tunnelbridge.Protocol.{Tunnel, TunnelKind, TunnelStatus, UpdateTunnelRequest}
use tunnelbridge.Server.Error.{not_found}
use tunnelbridge.Server.Db.{Db}
use tunnelbridge.Server.Db.Valid.{IsValid}
use tunnelbridge.Server.Tunnels.Rows.{tunnel_to_row, row_to_tunnel, kind_str}
use tunnelbridge.Server.Tunnels.Validate.Laws.{IsTunnel, IsAllowedTarget}
use tunnelbridge.Server.Tunnels.Ports.{used_ports, allocate_port}
use tunnelbridge.Server.Tunnels.Ports.Laws.{Allocates, allocate_port_lem}
use tunnelbridge.Server.Tunnels.Edit.Laws.{Keeps}
use tunnelbridge.Server.Tunnels.Store.{create, update, delete, get, foreign_owner}
use tunnelbridge.Server.Tunnels.Store.Laws.{create-IsTunnel}
use tunnelbridge.Server.Tunnels.Store.Update.{update-IsTunnel, foreign_not_found}
use tunnelbridge.Server.Tunnels.Store.Lookup.{get-delete, get-create}
use tunnelbridge.Prelude.{list_beq, any, all, find}
use tunnelbridge.Prelude.Text.{utf8_len, trim, contains_whitespace}
use tunnelbridge.Server.Db.{
  endpoint_check, row_check, same_port, same_hostname, both, clash, has_device, others,
  insert_tunnel, select_tunnel, update_row, update_tunnel, delete_tunnel, text_le,
  insert_by_created_at, order_by_created_at,
}
use tunnelbridge.Server.Tunnels.Rows.{
  access_mode_str, scheme_str, parse_access_mode, parse_kind, parse_scheme,
}
use tunnelbridge.Server.Tunnels.Validate.{
  validate_kind_scheme, allowlist_empty, validate_hostname, validate_endpoint, is_loopback_host,
  validate_local_host, validate_create, validate_tunnel,
}
use tunnelbridge.Server.Tunnels.Ports.{find_port}
use tunnelbridge.Server.Tunnels.Edit.{edit}
use tunnelbridge.Server.Tunnels.Store.{finish, new_tunnel, set_columns}
use tunnelbridge.Examples.Data.{columns, parse_ip, config, db, request, tunnel}

-- What `create` returns: it is stopped until it is read again.
abbrev fresh : Tunnel
fresh = record tunnel { status = TunnelStatus.stopped }

abbrev written : Db
written = record db { tunnels = tunnel_to_row columns tunnel ∷ [] }

db_IsValid : IsValid db
db_IsValid = record { distinct = tt; checked = tt; owned = tt }

created : create columns parse_ip config db 100 9 7 request ≡ ok (fresh, written)
unfolding columns list_beq utf8_len trim contains_whitespace row_check has_device insert_tunnel
    kind_str scheme_str tunnel_to_row validate_kind_scheme allowlist_empty validate_hostname
    is_loopback_host validate_local_host validate_create find_port allocate_port finish new_tunnel
    create
created = refl

allocate_port_example :
    Allocates config
      (used_ports (kind_str TunnelKind.tcp) written.tunnels)
      (allocate_port config written TunnelKind.tcp)
allocate_port_example = allocate_port_lem config written TunnelKind.tcp (omega arith)

create-IsTunnel_example :
    IsTunnel config fresh
    × IsAllowedTarget parse_ip request.allow_lan_target fresh.local_host
    × (fresh.id ≡ 100)
    × (fresh.agent_id ≡ 7)
create-IsTunnel_example =
    create-IsTunnel columns parse_ip config db 100 9 7 request fresh written created (omega arith)

get-create_example : get columns written 100 ≡ ok (record tunnel { status = TunnelStatus.starting })
get-create_example =
    get-create columns db 100 parse_ip config 9 7 request fresh written (omega arith) (omega arith)
      (omega arith) db_IsValid created

get-delete_example :
    get columns db 100 ≡ (if nat_beq 100 100 then err not_found else get columns written 100)
unfolding delete get tunnelbridge.Server.Db.select_tunnel tunnelbridge.Prelude.list_beq
    tunnel_to_row columns row_to_tunnel tunnelbridge.Server.Tunnels.Rows.parse_access_mode
    tunnelbridge.Server.Tunnels.Rows.access_mode_str tunnelbridge.Server.Tunnels.Rows.parse_kind
    kind_str tunnelbridge.Server.Tunnels.Rows.parse_scheme
    tunnelbridge.Server.Tunnels.Rows.scheme_str tunnelbridge.Server.Db.delete_tunnel
    tunnelbridge.Server.Db.others
get-delete_example = get-delete columns written 100 (some 7) db 100 refl

abbrev rename : UpdateTunnelRequest
rename = record {
  name = some (codes "shell");
  local_host = none;
  local_port = none;
  kind = none;
  local_scheme = none;
  remote_port = none;
  hostname = none;
  access_mode = none;
  allowed_cidrs = none;
  enabled = some false;
  allow_lan_target = false;
}

abbrev renamed : Tunnel
renamed = record tunnel { name = codes "shell"; enabled = false; updated_at = 10 }

abbrev rewritten : Db
rewritten = record db { tunnels = tunnel_to_row columns renamed ∷ [] }

updated : update columns parse_ip config written 100 10 (some 7) rename ≡ ok (renamed, rewritten)
unfolding columns list_beq trim row_check others select_tunnel update_tunnel access_mode_str
    kind_str scheme_str parse_access_mode parse_kind parse_scheme tunnel_to_row row_to_tunnel
    validate_kind_scheme allowlist_empty validate_endpoint validate_tunnel edit finish get
    set_columns update
updated = refl

tunnel_IsTunnel : IsTunnel config tunnel
tunnel_IsTunnel =
    let valid =
      (create-IsTunnel columns parse_ip config db 100 9 7 request fresh written created
        (omega arith)).0 in
    record {
      named = valid.named;
      short = valid.short;
      port = valid.port;
      host = valid.host;
      scheme = valid.scheme;
      endpoint = valid.endpoint;
      guarded = valid.guarded;
    }

update-IsTunnel_example :
    IsTunnel config renamed × Keeps config tunnel renamed × (foreign_owner (some 7) tunnel ≡ false)
unfolding get tunnelbridge.Server.Db.select_tunnel tunnelbridge.Prelude.list_beq tunnel_to_row
    columns row_to_tunnel tunnelbridge.Server.Tunnels.Rows.parse_access_mode
    tunnelbridge.Server.Tunnels.Rows.access_mode_str tunnelbridge.Server.Tunnels.Rows.parse_kind
    kind_str tunnelbridge.Server.Tunnels.Rows.parse_scheme
    tunnelbridge.Server.Tunnels.Rows.scheme_str
update-IsTunnel_example =
    update-IsTunnel columns written 100 parse_ip config 10 (some 7) rename renamed rewritten updated
      tunnel refl tunnel_IsTunnel

foreign_not_found_example :
    (update columns parse_ip config written 100 10 (some 8) rename ≡ err not_found)
    × (delete columns written 100 (some 8) ≡ err not_found)
unfolding get tunnelbridge.Server.Db.select_tunnel tunnelbridge.Prelude.list_beq tunnel_to_row
    columns row_to_tunnel tunnelbridge.Server.Tunnels.Rows.parse_access_mode
    tunnelbridge.Server.Tunnels.Rows.access_mode_str tunnelbridge.Server.Tunnels.Rows.parse_kind
    kind_str tunnelbridge.Server.Tunnels.Rows.parse_scheme
    tunnelbridge.Server.Tunnels.Rows.scheme_str
foreign_not_found_example =
    foreign_not_found columns written 100 parse_ip config 10 8 rename tunnel refl (λ e. omega arith)
