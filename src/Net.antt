-- ===== src/Net.antt =====
-- `std::net` as the program uses it, and the data of an `ipnet::IpNet`. An IPv4 address is its
-- 32-bit number and an IPv6 address its 128-bit number. Whether a network contains an address is
-- decided by the crate `ipnet`: the modules that ask it take the test as a parameter.
use tunnelbridge.Prelude.{
  ℕ, ◌/◌, ◌%◌, ◌^◌, ◌≡◌, ◌↔◌, Bool, true, false, ◌&&◌, Option, none, some, arith, Eq, nat_eq, ◌==◌,
  if◌then◌else◌,
}

pub data IpAddr : Type 0 where
  v4 : ℕ → IpAddr
  v6 : ℕ → IpAddr

abbrev pub ip_beq : IpAddr → IpAddr → Bool
ip_beq (v4 a) (v4 b) = a == b
ip_beq (v6 a) (v6 b) = a == b
ip_beq _ _ = false

pub ip_beq_iff : (a b : IpAddr) → (ip_beq a b ≡ true) ↔ (a ≡ b)
ip_beq_iff (v4 a) (v4 b) = ground arith
ip_beq_iff (v4 a) (v6 b) = ground arith
ip_beq_iff (v6 a) (v4 b) = ground arith
ip_beq_iff (v6 a) (v6 b) = ground arith

instance abbrev pub ip_eq : Eq IpAddr
ip_eq = record { beq = ip_beq; beq_iff = ip_beq_iff }

-- `Ipv6Addr::to_ipv4_mapped`: the addresses ::ffff:a.b.c.d.
pub to_ipv4_mapped : ℕ → Option ℕ
to_ipv4_mapped value = if value / 2 ^ 32 == 0xffff then some (value % 2 ^ 32) else none

-- `IpAddr::is_loopback`.
unfoldable pub is_loopback : IpAddr → Bool
is_loopback (v4 value) = value / 2 ^ 24 == 127
is_loopback (v6 value) = value == 1

pub record SocketAddr : Type 0 where
  pub ip : IpAddr
  pub port : ℕ

abbrev pub socket_beq : SocketAddr → SocketAddr → Bool
socket_beq a b = a.ip == b.ip && a.port == b.port

pub socket_beq_iff : (a b : SocketAddr) → (socket_beq a b ≡ true) ↔ (a ≡ b)
socket_beq_iff a b = ground (arith, ip_beq_iff a.ip b.ip)

instance abbrev pub socket_eq : Eq SocketAddr
socket_eq = record { beq = socket_beq; beq_iff = socket_beq_iff }

-- A network address and the length of its prefix.
pub record IpNet : Type 0 where
  pub addr : IpAddr
  pub prefix_len : ℕ

-- The match that `source_allowed`, `require_trusted_proxy` and `normalize_ip` begin with.
unfoldable pub canonical : IpAddr → IpAddr
unfolding to_ipv4_mapped
canonical (v4 value) = v4 value
canonical (v6 value) = elim (to_ipv4_mapped value) [ none ↦ v6 value | some v ↦ v4 v ]
