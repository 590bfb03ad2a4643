-- ===== src/Server/GeoIp.antt =====
-- server/src/geoip.rs. What the service answers to a request for a URL is a parameter: a parsed
-- `GeoIpResponse` of a successful response, or nothing. `print_ip` is `IpAddr::to_string`.
pub mod Addresses
pub mod Cache
use tunnelbridge.Prelude.{
  ℕ, ◌+◌, ◌-◌, ◌*◌, ◌/◌, ◌%◌, ◌^◌, Bool, true, false, not, ◌&&◌, ◌||◌, Option, none, some, List, [],
  ◌∷◌, ◌++◌, map, ltb, leb, length, all, ◌==◌, nat_eq, if◌then◌else◌, zero, suc,
}
use tunnelbridge.Prelude.Text.{
  Text, text_eq, codes, trim, to_ascii_lowercase, is_ascii_lowercase, is_ascii_uppercase, utf8_len,
  is_empty, trim_end_matches, strip_prefix,
}
use tunnelbridge.Prelude.Map.{get, insert, remove, is_some}
use tunnelbridge.Net.{IpAddr, v4, v6, ip_eq, canonical, is_loopback}
use tunnelbridge.Protocol.{GeoLocation}
use tunnelbridge.Server.State.{AppState, CachedLocation}

abbrev pub default_cache_ttl : ℕ
default_cache_ttl = 24 * 60 * 60 * 1000

abbrev pub negative_cache_ttl : ℕ
negative_cache_ttl = 10 * 60 * 1000

pub record GeoIpResponse : Type 0 where
  pub country_name : Option Text
  pub country_code : Option Text

-- `enabled` of `GeoIpResolver::new`.
unfoldable pub enabled : Text → Bool
enabled endpoint = not (to_ascii_lowercase (trim endpoint) == codes "off")

unfoldable pub upper_char : ℕ → ℕ
upper_char c = if is_ascii_lowercase c then c - 32 else c

-- `str::contains` and `str::replace` for a pattern that is not empty; `skip` characters are left of
-- an occurrence that has been replaced.
pub contains_text : Text → Text → Bool
contains_text pattern [] = is_some (strip_prefix pattern [])
contains_text pattern (c ∷ t) = is_some (strip_prefix pattern (c ∷ t)) || contains_text pattern t

pub replace_from : ℕ → Text → Text → Text → Text
replace_from skip pattern with [] = []
replace_from (suc skip) pattern with (c ∷ t) = replace_from skip pattern with t
replace_from zero pattern with (c ∷ t) =
    let past = replace_from (length pattern - 1) pattern with t in
    let rest = replace_from zero pattern with t in
    if is_some (strip_prefix pattern (c ∷ t)) then with ++ past else c ∷ rest

unfoldable pub endpoint_for : (IpAddr → Text) → Text → IpAddr → Text
unfolding contains_text replace_from
endpoint_for print_ip endpoint ip =
    if contains_text (codes "{ip}") endpoint
    then replace_from 0 (codes "{ip}") (print_ip ip) endpoint
    else trim_end_matches b'/' endpoint ++ b'/' ∷ print_ip ip

-- `&` with a mask of 16 bits whose low `n` bits are those that are zero.
unfoldable pub without_low : ℕ → ℕ → ℕ
without_low n first = first / 2 ^ n * 2 ^ n

-- The octets of an IPv4 address and the first segment of an IPv6 address are taken from the number.
unfoldable pub is_public_candidate : IpAddr → Bool
unfolding without_low is_loopback
is_public_candidate (v4 value) =
    let a = value / 2 ^ 24 in
    let b = value / 2 ^ 16 % 2 ^ 8 in
    not (
      a == 0
      || (a == 10
          || (a == 127
              || ((a == 169 && b == 254)
                  || ((a == 172 && (leb 16 b && leb b 31))
                      || ((a == 192 && b == 168) || leb 224 a))))))
is_public_candidate (v6 value) =
    let first = value / 2 ^ 112 in
    not (
      is_loopback (v6 value)
      || (value == 0
          || (without_low 9 first == 0xfc00
              || (without_low 6 first == 0xfe80 || without_low 8 first == 0xff00))))

-- The bytes of the code are upper-case letters exactly where its characters are.
unfoldable pub check_location : Text → Text → Option GeoLocation
check_location country_code country_name =
    if not (utf8_len country_code == 2)
      || (not (all is_ascii_uppercase country_code) || is_empty country_name)
    then none
    else some (record { country_code = country_code; country_name = country_name })

unfoldable pub parse_location : GeoIpResponse → Option GeoLocation
unfolding check_location
parse_location response = elim response.country_code [
  | none ↦ none
  | some code ↦ elim response.country_name [
    | none ↦ none
    | some name ↦ check_location (map upper_char (trim code)) (trim name)
  ]
]

unfoldable pub and_parse : Option GeoIpResponse → Option GeoLocation
unfolding parse_location
and_parse none = none
and_parse (some response) = parse_location response

-- What a lookup gives, the URL that it has asked the service for, and the state after it.
pub record Lookup : Type 0 where
  pub location : Option GeoLocation
  pub asked : Option Text
  pub after : AppState

module _ (print_ip : IpAddr → Text) (service : Text → Option GeoIpResponse) where
  -- The request, whose answer is cached from the time at which it has come.
  unfoldable pub ask : AppState → ℕ → IpAddr → Lookup
  unfolding endpoint_for and_parse
  ask s answered ip =
      let url = endpoint_for print_ip s.config.geoip_url ip in
      let location = and_parse (service url) in
      let ttl = if is_some location then default_cache_ttl else negative_cache_ttl in
      record {
        location = location;
        asked = some url;
        after = record s {
          geoip = insert s.geoip ip (record { location = location; expires_at = answered + ttl });
        };
      }

  unfoldable pub lookup : AppState → ℕ → ℕ → IpAddr → Lookup
  unfolding enabled ask
  lookup s now answered address =
      let ip = canonical address in
      if enabled s.config.geoip_url && is_public_candidate ip
      then elim (get s.geoip ip) [
        | none ↦ ask s answered ip
        | some cached ↦
            if ltb now cached.expires_at
            then record { location = cached.location; asked = none; after = s }
            else ask (record s { geoip = remove s.geoip ip }) answered ip
      ]
      else record { location = none; asked = none; after = s }
