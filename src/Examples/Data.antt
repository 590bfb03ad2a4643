-- ===== src/Examples/Data.antt =====
-- Values for the examples: instances of the parameters, and a state of the server.
use tunnelbridge.Prelude.{
  ◌-◌, ℕ, ◌^◌, ◌/◌, ◌≡◌, ◌<◌, refl, Bool, true, false, Option, none, some, List, [], ◌∷◌, arith,
  All, length, ◌==◌, nat_eq, if◌then◌else◌,
}
use tunnelbridge.Prelude.Text.{Text, codes}
use tunnelbridge.Prelude.Bytes.{
  IsByte, be_bytes, be_value, length-be_bytes, be_value-be_bytes, be_bytes-be_value,
}
use tunnelbridge.Net.{IpAddr, v4, v6, IpNet, SocketAddr}
use tunnelbridge.Protocol.{
  Uuid, Tunnel, TunnelKind, LocalScheme, AccessMode, TunnelStatus, ActiveTransport,
  CreateTunnelRequest,
}
use tunnelbridge.Protocol.Frame.{UuidBytes}
use tunnelbridge.Server.Config.{Config}
use tunnelbridge.Server.Db.{Db, DeviceRow}
use tunnelbridge.Server.State.{AppState}
use tunnelbridge.Server.Tunnels.Rows.{Columns}
use tunnelbridge.Server.Gateway.Connection.{Draw}

abbrev pub id_of : List ℕ → Option Uuid
id_of bytes = if length bytes == 16 then some (be_value bytes) else none

id_of-be_bytes : (id : Uuid) → id < 2 ^ 128 → id_of (be_bytes 16 id) ≡ some id
id_of-be_bytes id h = ground (arith, length-be_bytes 16 id, be_value-be_bytes 16 id)

id_of_total : (bytes : List ℕ) → length bytes ≡ 16 → (id : Uuid) × (id_of bytes ≡ some id)
id_of_total bytes h = (be_value bytes, rw h refl)

be_bytes-id_of :
    (bytes : List ℕ) (id : Uuid) → All IsByte bytes → id_of bytes ≡ some id → be_bytes 16 id ≡ bytes
be_bytes-id_of bytes id h e = ground (arith, be_bytes-be_value 16 bytes)

-- An identifier in 16 bytes, the most significant first.
unfoldable pub uuid_bytes : UuidBytes
unfolding id_of-be_bytes id_of_total be_bytes-id_of
uuid_bytes = record {
  as_bytes = be_bytes 16;
  from_slice = id_of;
  length-as_bytes = length-be_bytes 16;
  from_slice-as_bytes = id_of-be_bytes;
  from_slice_total = id_of_total;
  as_bytes-from_slice = be_bytes-id_of;
}

abbrev pub one_number : List ℕ → Option ℕ
one_number (n ∷ []) = some n
one_number _ = none

one_number_lem : (n : ℕ) → one_number (n ∷ []) ≡ some n
one_number_lem n = refl

abbrev pub write_nets : List IpNet → Text
write_nets [] = []
write_nets (n ∷ ns) = elim n.addr [
  | v4 a ↦ 4 ∷ a ∷ n.prefix_len ∷ write_nets ns
  | v6 a ↦ 6 ∷ a ∷ n.prefix_len ∷ write_nets ns
]

abbrev pub net_of : ℕ → ℕ → ℕ → IpNet
net_of version a n = record { addr = if version == 4 then v4 a else v6 a; prefix_len = n }

abbrev pub read_nets : Text → Option (List IpNet)
read_nets [] = some []
read_nets (version ∷ a ∷ n ∷ rest) = elim (read_nets rest) [
  | none ↦ none
  | some ns ↦ some (net_of version a n ∷ ns)
]
read_nets _ = none

read-write_net :
    (a : IpAddr) (n : ℕ) (ns : List IpNet)
    → read_nets (write_nets ns) ≡ some ns
    → read_nets (write_nets (record { addr = a; prefix_len = n } ∷ ns))
      ≡ some (record { addr = a; prefix_len = n } ∷ ns)
read-write_net (v4 a) n ns h = rw h refl
read-write_net (v6 a) n ns h = rw h refl

read-write_nets : (ns : List IpNet) → read_nets (write_nets ns) ≡ some ns
read-write_nets [] = refl
read-write_nets (n ∷ ns) = read-write_net n.addr n.prefix_len ns (read-write_nets ns)

-- Texts of one number for identifiers and times.
unfoldable pub columns : Columns
unfolding one_number_lem read-write_nets read-write_net
columns = record {
  uuid_text = λ id. id ∷ [];
  parse_uuid = one_number;
  parse-uuid_text = one_number_lem;
  cidrs_text = write_nets;
  parse_cidrs = read_nets;
  parse-cidrs_text = read-write_nets;
  rfc3339 = λ at. at ∷ [];
  parse_rfc3339 = one_number;
  parse-rfc3339 = one_number_lem;
}

-- The networks of IPv4 that contain an address.
abbrev pub contains : IpNet → IpAddr → Bool
contains n a = elim n.addr [
  | v6 b ↦ false
  | v4 b ↦ elim a [
    | v6 c ↦ false
    | v4 c ↦ c / 2 ^ (32 - n.prefix_len) == b / 2 ^ (32 - n.prefix_len)
  ]
]

-- An address is written as one number.
abbrev pub parse_ip : Text → Option IpAddr
parse_ip (n ∷ []) = some (v4 n)
parse_ip _ = none

abbrev pub hash_token : Text → Text
hash_token t = 35 ∷ t

abbrev pub print_addr : SocketAddr → Text
print_addr a = a.port ∷ []

abbrev pub uri_authority : Text → Option Text
uri_authority t = some t

abbrev pub config : Config
config = record {
  admin_password = none;
  port_start = 20000;
  port_end = 20002;
  ticket_ttl = 15000;
  connect_timeout = 10000;
  idle_timeout = 300000;
  session_ttl = 43200000;
  audit_retention_days = 90;
  secure_cookies = true;
  geoip_url = codes "http://geo/";
  web_base_domain = codes "example.com";
  quic_port = 4433;
  quic_listen_port = 7443;
  kcp_port = 4434;
  udp_session_timeout = 60000;
  trusted_proxy_cidrs = [];
}

abbrev pub laptop : DeviceRow
laptop = record {
  id = 7 ∷ [];
  name = codes "laptop";
  token_hash = hash_token (codes "secret");
  revoked = false;
  last_seen_at = none;
  created_at = 1 ∷ [];
}

abbrev pub db : Db
db = record {
  admins = [];
  devices = laptop ∷ [];
  tunnels = [];
  audit_log = [];
  connection_history = [];
}

abbrev pub state : AppState
state = record {
  config = config;
  db = db;
  sessions = [];
  login_attempts = [];
  agents = (7, record { session_id = 70; transport = ActiveTransport.quic }) ∷ [];
  pending = [];
  streams = [];
  listeners = [];
  active = [];
  counters = record {
    bytes_up = 0;
    bytes_down = 0;
    rejected = 0;
    failed = 0;
    active_udp = 0;
    http_requests = 0;
    quic = 1;
    kcp = 0;
    wss = 0;
  };
  geoip = [];
  carriers = (70, record { control = []; binary = []; is_open = true; cancelled = false }) ∷ [];
  acks = [];
  cancelled_listeners = [];
}

abbrev pub draw : Draw
draw = record {
  connection_id = 500;
  ticket = codes "ticket";
  now = 1000;
  utc_now = 5000;
  location = none;
}

abbrev pub request : CreateTunnelRequest
request = record {
  name = codes "ssh";
  local_host = codes "localhost";
  local_port = 22;
  kind = TunnelKind.tcp;
  local_scheme = LocalScheme.tcp;
  remote_port = none;
  hostname = none;
  access_mode = AccessMode.public;
  allowed_cidrs = [];
  enabled = true;
  allow_lan_target = false;
}

abbrev pub tunnel : Tunnel
tunnel = record {
  id = 100;
  agent_id = 7;
  name = codes "ssh";
  local_host = codes "localhost";
  local_port = 22;
  kind = TunnelKind.tcp;
  local_scheme = LocalScheme.tcp;
  remote_port = some 20000;
  hostname = none;
  access_mode = AccessMode.public;
  allowed_cidrs = [];
  enabled = true;
  status = TunnelStatus.starting;
  created_at = 9;
  updated_at = 9;
}
