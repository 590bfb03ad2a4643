-- ===== src/Server/Tunnels/Source.antt =====
-- server/src/tunnels.rs, `source_allowed`. `IpNet::contains` is a parameter.
pub mod Laws
use tunnelbridge.Prelude.{Bool, true, List, any}
use tunnelbridge.Net.{IpAddr, IpNet, canonical}
use tunnelbridge.Protocol.{Tunnel, AccessMode}

module _ (contains : IpNet → IpAddr → Bool) where
  -- The match on the access mode.
  mode_allows : AccessMode → List IpNet → IpAddr → Bool
  unfolding any
  mode_allows AccessMode.public cidrs address = true
  mode_allows AccessMode.allowlist cidrs address = any (λ network. contains network address) cidrs

  unfoldable pub source_allowed : Tunnel → IpAddr → Bool
  unfolding mode_allows canonical
  source_allowed tunnel address =
      mode_allows tunnel.access_mode tunnel.allowed_cidrs (canonical address)
