-- ===== src/Server/Tunnels/Rows/RoundTrip.antt =====
-- A tunnel that is written to the table is read back.
use tunnelbridge.Prelude.{
  ℕ, ◌%◌, ◌^◌, ◌<◌, ◌≡◌, refl, Option, none, some, arith, if◌then◌else◌, list_beq,
}
use tunnelbridge.Prelude.Result.{ok}
use tunnelbridge.Protocol.{Tunnel, TunnelKind, LocalScheme, AccessMode, TunnelStatus}
use tunnelbridge.Server.Tunnels.Rows.{
  Columns, tunnel_to_row, row_to_tunnel, access_mode_str, parse_access_mode, kind_str, parse_kind,
  scheme_str, parse_scheme, as_u16,
}
use mathlib.Core.Option

parse-access_mode_str : (m : AccessMode) → parse_access_mode (access_mode_str m) ≡ ok m
unfolding access_mode_str parse_access_mode list_beq
parse-access_mode_str AccessMode.allowlist = refl
parse-access_mode_str AccessMode.public = refl

parse-kind_str : (k : TunnelKind) → parse_kind (kind_str k) ≡ ok k
unfolding kind_str parse_kind list_beq
parse-kind_str TunnelKind.tcp = refl
parse-kind_str TunnelKind.udp = refl
parse-kind_str TunnelKind.web = refl

parse-scheme_str : (s : LocalScheme) → parse_scheme (scheme_str s) ≡ ok s
unfolding scheme_str parse_scheme list_beq
parse-scheme_str LocalScheme.tcp = refl
parse-scheme_str LocalScheme.udp = refl
parse-scheme_str LocalScheme.http = refl
parse-scheme_str LocalScheme.https = refl

abbrev pub IsU16 : Option ℕ → Type 0
IsU16 none = Unit {0}
IsU16 (some p) = p < 2 ^ 16

map-as_u16 : (port : Option ℕ) → IsU16 port → Option.map as_u16 port ≡ port
map-as_u16 none h = refl
map-as_u16 (some p) h = ground arith

-- Reading the row of a tunnel whose ports are 16-bit numbers gives the tunnel back, but for its
-- status, which is `starting` if it is enabled and `stopped` if not.
pub row_to_tunnel-tunnel_to_row :
    (columns : Columns) (t : Tunnel)
    → t.local_port < 2 ^ 16
    → IsU16 t.remote_port
    → row_to_tunnel columns (tunnel_to_row columns t)
      ≡ ok (record t { status = if t.enabled then TunnelStatus.starting else TunnelStatus.stopped })
unfolding row_to_tunnel tunnel_to_row
row_to_tunnel-tunnel_to_row columns t local remote =
    let port : t.local_port % 2 ^ 16 ≡ t.local_port = omega arith in
    rw (
      parse-access_mode_str t.access_mode,
      columns.parse-uuid_text t.id,
      columns.parse-uuid_text t.agent_id,
      parse-kind_str t.kind,
      parse-scheme_str t.local_scheme,
      columns.parse-cidrs_text t.allowed_cidrs,
      columns.parse-rfc3339 t.created_at,
      columns.parse-rfc3339 t.updated_at,
      port,
      map-as_u16 t.remote_port remote,
    )
