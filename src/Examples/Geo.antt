-- ===== src/Examples/Geo.antt =====
-- The theorems on server/src/geoip.rs, at values.
use tunnelbridge.Prelude.{
  ◌≡◌, ◌+◌, ◌*◌, ◌<◌, ◌^◌, ℕ, refl, Bool, true, false, not, any, Option, none, some, List, [], ◌∷◌,
  ◌++◌, arith,
}
use tunnelbridge.Prelude.Text.{Text, codes}
use tunnelbridge.Net.{IpAddr, v4, v6}
use tunnelbridge.Server.GeoIp.{GeoIpResponse, is_public_candidate, lookup, Lookup}
use tunnelbridge.Server.GeoIp.Addresses.{
  IsAddress, has_address, special_nets, is_public_candidate_lem,
}
use tunnelbridge.Server.GeoIp.Cache.{IsCache, IsLocation, Asks, lookup-IsCache, lookup_again}
use tunnelbridge.Examples.Data.{state}

abbrev print_ip : IpAddr → Text
print_ip ip = codes "8.8.8.8"

abbrev service : Text → Option GeoIpResponse
service url =
    some (record { country_name = some (codes " Chile "); country_code = some (codes "cl") })

abbrev silent : Text → Option GeoIpResponse
silent url = none

abbrev asked : Lookup
asked = lookup print_ip service state 1000 1200 (v4 (8 * 2 ^ 24))

is_public_candidate_example :
    is_public_candidate (v4 (10 * 2 ^ 24 + 7))
    ≡ not (any (has_address (v4 (10 * 2 ^ 24 + 7))) special_nets)
unfolding IsAddress
is_public_candidate_example = is_public_candidate_lem (v4 (10 * 2 ^ 24 + 7)) (omega arith)

empty : IsCache state
unfolding IsCache tunnelbridge.Prelude.Map.get
empty ip c h = absurd (ground arith)

lookup_example :
    IsCache asked.after
    × IsLocation asked.location
    × Asks print_ip state (v4 (8 * 2 ^ 24)) asked.asked
lookup_example = lookup-IsCache print_ip service state 1000 1200 (v4 (8 * 2 ^ 24)) empty

lookup_again_example :
    lookup print_ip silent asked.after 5000 5100 (v4 (8 * 2 ^ 24))
    ≡ record { location = asked.location; asked = none; after = asked.after }
unfolding lookup tunnelbridge.Prelude.list_beq tunnelbridge.Prelude.Text.to_ascii_lowercase
    tunnelbridge.Prelude.Text.trim is_public_candidate tunnelbridge.Net.canonical
    tunnelbridge.Prelude.Map.get tunnelbridge.Prelude.Text.strip_prefix
    tunnelbridge.Prelude.Text.trim_end_matches tunnelbridge.Prelude.Text.utf8_len
    tunnelbridge.Server.GeoIp.upper_char tunnelbridge.Prelude.Text.is_ascii_lowercase
    tunnelbridge.Prelude.all
lookup_again_example =
    lookup_again print_ip service silent state 1000 1200 5000 5100 (v4 (8 * 2 ^ 24))
      (codes "http://geo/8.8.8.8") refl (omega arith)
