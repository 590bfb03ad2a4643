-- ===== src/Server/GeoIp/Cache.antt =====
-- What a lookup asks, caches and answers.
use tunnelbridge.Prelude.{
  ℕ, ◌+◌, ◌<◌, ◌≡◌, refl, subst, lt→ltb, true, false, not, ◌&&◌, ◌||◌, Option, none, some, ltb, all,
  ◌==◌, nat_eq, arith, map, ◌⊎◌, inl, inr, Bool-cases, Option-cases, ==_refl, if◌then◌else◌,
}
use tunnelbridge.Prelude.Text.{Text, utf8_len, is_ascii_uppercase, is_empty, trim}
use tunnelbridge.Prelude.Map.{get, insert, remove, is_some, get-insert, get-remove}
use tunnelbridge.Net.{IpAddr, ip_eq, canonical}
use tunnelbridge.Protocol.{GeoLocation}
use tunnelbridge.Server.State.{AppState, CachedLocation}
use tunnelbridge.Server.GeoIp.{
  GeoIpResponse, default_cache_ttl, negative_cache_ttl, enabled, endpoint_for, is_public_candidate,
  check_location, parse_location, and_parse, ask, lookup, upper_char,
}

-- A code of two upper-case letters, and a name.
unfoldable pub IsLocation : Option GeoLocation → Type 0
IsLocation none = Unit {0}
IsLocation (some l) =
    (utf8_len l.country_code ≡ 2)
    × (all is_ascii_uppercase l.country_code ≡ true)
    × (is_empty l.country_name ≡ false)

unfoldable pub IsCache : AppState → Type 0
IsCache s = (ip : IpAddr) (c : CachedLocation) → get s.geoip ip ≡ some c → IsLocation c.location

check_location-IsLocation : (code name : Text) → IsLocation (check_location code name)
unfolding check_location
check_location-IsLocation code name =
    elim (Bool-cases
      (not (utf8_len code == 2) || (not (all is_ascii_uppercase code) || is_empty name))) [
        | inl bad ↦ unfold IsLocation in rw bad tt
        | inr good ↦
            unfold IsLocation in
            rw good (ground (arith, good), ground (arith, good), ground (arith, good))
      ]

and_parse-IsLocation : (response : Option GeoIpResponse) → IsLocation (and_parse response)
unfolding and_parse parse_location
and_parse-IsLocation none = unfold IsLocation in tt
and_parse-IsLocation (some response) = elim (Option-cases response.country_code) [
  | inl e ↦ unfold IsLocation in rw e tt
  | inr (code, e) ↦ elim (Option-cases response.country_name) [
    | inl e2 ↦ unfold IsLocation in rw (e, e2) tt
    | inr (name, e2) ↦
        rw (e, e2) (check_location-IsLocation (map upper_char (trim code)) (trim name))
  ]
]

module _ (print_ip : IpAddr → Text) where
  -- What a lookup asks for, if it asks: the URL of a public address, while the resolver is enabled.
  unfoldable pub Asks : AppState → IpAddr → Option Text → Type 0
  Asks s address none = Unit {0}
  Asks s address (some url) =
      (enabled s.config.geoip_url ≡ true)
      × (is_public_candidate (canonical address) ≡ true)
      × (url ≡ endpoint_for print_ip s.config.geoip_url (canonical address))

  ask_ok :
      (service : Text → Option GeoIpResponse) (s : AppState) (answered : ℕ) (ip : IpAddr)
      → IsCache s
      → IsCache (ask print_ip service s answered ip).after
        × IsLocation (ask print_ip service s answered ip).location
  unfolding ask IsCache
  ask_ok service s answered ip h =
      let url = endpoint_for print_ip s.config.geoip_url ip in
      let l = and_parse (service url) in
      let entry : CachedLocation = record {
        location = l;
        expires_at = answered + (if is_some l then default_cache_ttl else negative_cache_ttl);
      } in
      (
        λ ip' c found. elim (Bool-cases (ip == ip')) [
          | inl own ↦
              let same : entry ≡ c = ground (arith, own, found, get-insert s.geoip ip ip' entry) in
              subst (λ (x : CachedLocation). IsLocation x.location) same
                (and_parse-IsLocation (service url))
          | inr other ↦ h ip' c (ground (arith, other, found, get-insert s.geoip ip ip' entry))
        ],
        and_parse-IsLocation (service url),
      )

  remove-IsCache :
      (s : AppState) (ip : IpAddr) → IsCache s → IsCache (record s { geoip = remove s.geoip ip })
  unfolding IsCache
  remove-IsCache s ip h = λ ip' c found. h ip' c (ground (arith, found, get-remove s.geoip ip ip'))

  -- Every cached location has a code of two upper-case letters and a name that is not empty, and a lookup
  -- keeps that and gives such a location or none. If it asks the service, the resolver is enabled, the
  -- address is a public one, and the URL is that of the address, an IPv4 address written as an IPv6
  -- address taken as the IPv4 address.
  pub lookup-IsCache :
      (service : Text → Option GeoIpResponse) (s : AppState) (now answered : ℕ) (address : IpAddr)
      → IsCache s
      → IsCache (lookup print_ip service s now answered address).after
        × IsLocation (lookup print_ip service s now answered address).location
        × Asks s address (lookup print_ip service s now answered address).asked
  unfolding lookup Asks
  lookup-IsCache service s now answered address h =
      let ip = canonical address in
      elim (Bool-cases (enabled s.config.geoip_url && is_public_candidate ip)) [
        | inr off ↦ rw off (h, unfold IsLocation in tt, tt)
        | inl on ↦ elim (Option-cases (get s.geoip ip)) [
          | inl new ↦
              let (kept, given) = ask_ok service s answered ip h in
              rw (on, new)
                (kept, given, unfold ask in (ground (arith, on), ground (arith, on), refl))
          | inr (c, found) ↦ elim (Bool-cases (ltb now c.expires_at)) [
            | inl fresh ↦ rw (on, found, fresh) (h, unfold IsCache in h ip c found, tt)
            | inr stale ↦
                let (kept, given) =
                  ask_ok service (record s { geoip = remove s.geoip ip }) answered ip
                    (remove-IsCache s ip h) in
                rw (on, found, stale)
                  (kept, given, unfold ask in (ground (arith, on), ground (arith, on), refl))
          ]
        ]
      ]

  ask_again :
      (service service' : Text → Option GeoIpResponse) (s : AppState) (answered later answered' : ℕ)
      (address : IpAddr)
      → (enabled s.config.geoip_url && is_public_candidate (canonical address)) ≡ true
      → later
        < answered
          + (if is_some (ask print_ip service s answered (canonical address)).location
              then default_cache_ttl
              else negative_cache_ttl)
      → lookup print_ip service'
          (ask print_ip service s answered (canonical address)).after
          later
          answered'
          address
        ≡ record {
          location = (ask print_ip service s answered (canonical address)).location;
          asked = none;
          after = (ask print_ip service s answered (canonical address)).after;
        }
  unfolding lookup ask
  ask_again service service' s answered later answered' address on early =
      let ip = canonical address in
      let l = and_parse (service (endpoint_for print_ip s.config.geoip_url ip)) in
      let entry : CachedLocation = record {
        location = l;
        expires_at = answered + (if is_some l then default_cache_ttl else negative_cache_ttl);
      } in
      let found : get (insert s.geoip ip entry) ip ≡ some entry =
        ground (arith, get-insert s.geoip ip ip entry, ==_refl ip) in
      rw
        (
          on,
          found,
          lt→ltb later (answered + (if is_some l then default_cache_ttl else negative_cache_ttl))
              early,
        )
        refl

  Lookup-cases :
      (service : Text → Option GeoIpResponse) (s : AppState) (now answered : ℕ) (address : IpAddr)
      → ((lookup print_ip service s now answered address).asked ≡ none)
        ⊎ ((s' : AppState) × ((enabled s'.config.geoip_url
                && is_public_candidate (canonical address))
              ≡ true)
            × (lookup print_ip service s now answered address
                ≡ ask print_ip service s' answered (canonical address)))
  unfolding lookup
  Lookup-cases service s now answered address =
      let ip = canonical address in
      elim (Bool-cases (enabled s.config.geoip_url && is_public_candidate ip)) [
        | inr off ↦ inl (rw off refl)
        | inl on ↦ elim (Option-cases (get s.geoip ip)) [
          | inl new ↦ inr (s, on, rw (on, new) refl)
          | inr (c, found) ↦ elim (Bool-cases (ltb now c.expires_at)) [
            | inl fresh ↦ inl (rw (on, found, fresh) refl)
            | inr stale ↦
                inr (record s { geoip = remove s.geoip ip }, on, rw (on, found, stale) refl)
          ]
        ]
      ]

  -- The answer to a request is cached. If a lookup has asked the service, then whatever the service would
  -- say by now, a lookup of the same address gives the same location, asks nothing and changes nothing,
  -- for 24 hours after the answer if it was a location and for 10 minutes if it was none.
  pub lookup_again :
      (service service' : Text → Option GeoIpResponse) (s : AppState)
      (now answered later answered' : ℕ) (address : IpAddr) (url : Text)
      → (lookup print_ip service s now answered address).asked ≡ some url
      → later
        < answered
          + (if is_some (lookup print_ip service s now answered address).location
              then default_cache_ttl
              else negative_cache_ttl)
      → lookup print_ip service'
          (lookup print_ip service s now answered address).after
          later
          answered'
          address
        ≡ record {
          location = (lookup print_ip service s now answered address).location;
          asked = none;
          after = (lookup print_ip service s now answered address).after;
        }
  lookup_again service service' s now answered later answered' address url asked early =
      elim (Lookup-cases service s now answered address) [
        | inl none_asked ↦ absurd (ground (arith, asked, none_asked))
        | inr (s', on, e) ↦
            rw e (ask_again service service' s' answered later answered' address on (rw e at early))
      ]
