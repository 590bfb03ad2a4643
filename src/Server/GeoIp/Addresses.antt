-- ===== src/Server/GeoIp/Addresses.antt =====
-- The addresses that `is_public_candidate` leaves out.
use tunnelbridge.Prelude.{
  ◌+◌, ◌-◌, ◌*◌, ◌/◌, ◌^◌, ◌<◌, ◌≡◌, Bool, false, not, List, [], ◌∷◌, any, ◌==◌, nat_eq, arith,
}
use tunnelbridge.Net.{IpAddr, v4, v6, IpNet, is_loopback}
use tunnelbridge.Server.GeoIp.{is_public_candidate, without_low}

-- The network of the same family that has the address.
unfoldable pub has_address : IpAddr → IpNet → Bool
has_address (v4 value) net = elim net.addr [
  | v4 base ↦ value / 2 ^ (32 - net.prefix_len) == base / 2 ^ (32 - net.prefix_len)
  | v6 base ↦ false
]
has_address (v6 value) net = elim net.addr [
  | v6 base ↦ value / 2 ^ (128 - net.prefix_len) == base / 2 ^ (128 - net.prefix_len)
  | v4 base ↦ false
]

-- This host, private networks, loopback, link-local, and from 224.0.0.0 on; then ::, ::1, unique
-- local, link-local and multicast.
abbrev pub special_nets : List IpNet
special_nets =
    record { addr = v4 0; prefix_len = 8 }
    ∷ record { addr = v4 (10 * 2 ^ 24); prefix_len = 8 }
    ∷ record { addr = v4 (127 * 2 ^ 24); prefix_len = 8 }
    ∷ record { addr = v4 (169 * 2 ^ 24 + 254 * 2 ^ 16); prefix_len = 16 }
    ∷ record { addr = v4 (172 * 2 ^ 24 + 16 * 2 ^ 16); prefix_len = 12 }
    ∷ record { addr = v4 (192 * 2 ^ 24 + 168 * 2 ^ 16); prefix_len = 16 }
    ∷ record { addr = v4 (224 * 2 ^ 24); prefix_len = 3 }
    ∷ record { addr = v6 0; prefix_len = 128 }
    ∷ record { addr = v6 1; prefix_len = 128 }
    ∷ record { addr = v6 (0xfc00 * 2 ^ 112); prefix_len = 7 }
    ∷ record { addr = v6 (0xfe80 * 2 ^ 112); prefix_len = 10 }
    ∷ record { addr = v6 (0xff00 * 2 ^ 112); prefix_len = 8 }
    ∷ []

unfoldable pub IsAddress : IpAddr → Type 0
IsAddress (v4 value) = value < 2 ^ 32
IsAddress (v6 value) = value < 2 ^ 128

-- An address, of 32 bits or of 128, is looked up exactly where it is in none of the networks 0/8, 10/8,
-- 127/8, 169.254/16, 172.16/12, 192.168/16, 224/3, ::/128, ::1/128, fc00::/7, fe80::/10 and ff00::/8.
pub is_public_candidate_lem :
    (ip : IpAddr) → IsAddress ip → is_public_candidate ip ≡ not (any (has_address ip) special_nets)
unfolding is_public_candidate has_address any IsAddress without_low is_loopback
is_public_candidate_lem (v4 value) h = ground arith
is_public_candidate_lem (v6 value) h = ground arith
