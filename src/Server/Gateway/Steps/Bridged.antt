-- ===== src/Server/Gateway/Steps/Bridged.antt =====
-- What comes before the bridge of a connection of server/src/gateway.rs, in every order of the steps of
-- Gateway/Steps.
use tunnelbridge.Prelude.{Bool, nat_eq}
use tunnelbridge.Prelude.Text.{Text}
use tunnelbridge.Net.{IpAddr, IpNet, SocketAddr}
use tunnelbridge.Protocol.{Uuid}
use tunnelbridge.Protocol.Frame.{UuidBytes}
use tunnelbridge.Server.State.{AppState}
use tunnelbridge.Server.Tunnels.Rows.{Columns}
use tunnelbridge.Server.Gateway.Steps.{Reach}
use tunnelbridge.Server.Gateway.Steps.Cleared.{Accepts}

module _ (contains : IpNet → IpAddr → Bool) (hash_token : Text → Text)
    (print_addr : SocketAddr → Text) (columns : Columns) (uuid : UuidBytes)
    (before : Text → Text → Bool) where
  -- A run in which an agent accepts the connection.
  abbrev pub AcceptedIn : Uuid → AppState → AppState → Type 0
  AcceptedIn id s s' =
      (t : AppState) × (u : AppState) × Reach contains hash_token print_addr columns uuid before s t
      × Accepts contains hash_token print_addr columns uuid before id t u
      × Reach contains hash_token print_addr columns uuid before u s'
