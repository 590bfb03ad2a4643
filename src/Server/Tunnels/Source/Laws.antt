-- ===== src/Server/Tunnels/Source/Laws.antt =====
-- Which sources a tunnel admits.
use tunnelbridge.Prelude.{
  ℕ, ◌+◌, ◌*◌, ◌^◌, ◌<◌, ◌≡◌, refl, ◌↔◌, ◌⊎◌, inl, inr, Bool, true, List, arith, In, any_witness,
  any_of_In,
}
use tunnelbridge.Net.{IpAddr, v4, v6, IpNet, canonical}
use tunnelbridge.Protocol.{Tunnel, AccessMode}
use tunnelbridge.Server.Tunnels.Source.{mode_allows, source_allowed}

canonical_mapped : (v : ℕ) → v < 2 ^ 32 → canonical (v6 (0xffff * 2 ^ 32 + v)) ≡ v4 v
unfolding canonical
canonical_mapped v h = ground arith

module _ (contains : IpNet → IpAddr → Bool) where
  mode_allows_lem :
      (mode : AccessMode) (cidrs : List IpNet) (a : IpAddr)
      → (mode_allows contains mode cidrs a ≡ true)
        ↔ ((mode ≡ AccessMode.public) ⊎ ((n : IpNet) × In n cidrs × (contains n a ≡ true)))
  unfolding mode_allows
  mode_allows_lem AccessMode.public cidrs a = (λ _. inl refl, λ _. refl)
  mode_allows_lem AccessMode.allowlist cidrs a = (
    λ h. inr (any_witness (λ n. contains n a) cidrs h),
    λ h. elim h [ inl e ↦ absurd (cc) | inr (n, i, e) ↦ any_of_In (λ n. contains n a) cidrs n i e ],
  )

  -- A source is admitted exactly if the tunnel is public or one of its networks contains the source,
  -- an IPv4-mapped IPv6 address being read as the IPv4 address.
  pub source_allowed_lem :
      (t : Tunnel) (a : IpAddr)
      → (source_allowed contains t a ≡ true) ↔ (
          (t.access_mode ≡ AccessMode.public)
          ⊎ ((n : IpNet) × In n t.allowed_cidrs × (contains n (canonical a) ≡ true)))
  unfolding source_allowed
  source_allowed_lem t a = mode_allows_lem t.access_mode t.allowed_cidrs (canonical a)

  -- A source that a dual-stack socket reports as ::ffff:a.b.c.d is judged as the address a.b.c.d.
  pub source_allowed_mapped :
      (t : Tunnel) (v : ℕ)
      → v < 2 ^ 32
      → source_allowed contains t (v6 (0xffff * 2 ^ 32 + v)) ≡ source_allowed contains t (v4 v)
  unfolding source_allowed
  source_allowed_mapped t v h = rw (canonical_mapped v h)
