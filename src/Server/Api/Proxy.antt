-- ===== src/Server/Api/Proxy.antt =====
-- server/src/api.rs: `web_proxy` up to the HTTP client: whom a request of the reverse proxy is for, and the
-- headers that it is passed on with.
use tunnelbridge.Prelude.{◌+◌, Bool, Option, none, some, [], ◌∷◌, nat_eq}
use tunnelbridge.Prelude.Text.{Text, text_eq, codes, split, to_ascii_lowercase}
use tunnelbridge.Prelude.Map.{get, remove}
use tunnelbridge.Prelude.Result.{Result, ok, ◌>>=◌, ◌>>◌, ok_or}
use tunnelbridge.Net.{IpAddr, IpNet, SocketAddr}
use tunnelbridge.Protocol.{Tunnel}
use tunnelbridge.Server.Error.{AppError, bad_request, literal}
use tunnelbridge.Server.State.{AppState}
use tunnelbridge.Server.Headers.{Headers, header}
use tunnelbridge.Server.Tunnels.Rows.{Columns}
use tunnelbridge.Server.Tunnels.Queries.{get_by_hostname}
use tunnelbridge.Server.Api.Login.{parse_forwarded_ip}
use tunnelbridge.Server.Api.Status.{require_trusted_proxy}

-- `headers.get("x-forwarded-host").or_else(|| headers.get(HOST)).and_then(|value| value.to_str().ok())`
forwarded_host : Headers → Option Text
forwarded_host headers = elim (get headers (codes "x-forwarded-host")) [
  | none ↦ header headers (codes "host")
  | some value ↦ value
]

-- `value.split(':').next()`
host_part : Option Text → Option Text
host_part none = none
host_part (some value) = elim (split b':' value) [ [] ↦ none | part ∷ parts ↦ some part ]

module _ (columns : Columns) (contains : IpNet → IpAddr → Bool)
    (parse_ip : Text → Option IpAddr) where
  -- The tunnel, and the source whose address the proxy reports.
  pub proxy_target : AppState → IpAddr → Headers → Result AppError (Tunnel × SocketAddr)
  unfolding forwarded_host host_part
  proxy_target s proxy_peer headers = do
    require_trusted_proxy contains s proxy_peer
    host ←
        ok_or (host_part (forwarded_host headers)) (bad_request (literal "missing forwarded host"))
    peer_ip ←
        ok_or (parse_forwarded_ip parse_ip (header headers (codes "x-forwarded-for")))
          (bad_request (literal "missing forwarded source address"))
    tunnel ← get_by_hostname columns s.db (to_ascii_lowercase host)
    ok (tunnel, record { ip = peer_ip; port = 0 })

-- The headers that are not passed on.
pub strip_headers : Headers → Headers
strip_headers headers =
    remove
      (remove (remove headers (codes "x-tunnelbridge-original-uri")) (codes "x-tunnelbridge-proxy"))
      (codes "x-real-ip")

-- The counter at the end.
pub count_request : AppState → AppState
count_request s = record s {
  counters = record s.counters { http_requests = s.counters.http_requests + 1 };
}
