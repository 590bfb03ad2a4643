-- ===== src/Server/Tunnels/Ports/Laws.antt =====
-- Which port `allocate_port` chooses.
use tunnelbridge.Prelude.{
  ℕ, zero, suc, ◌+◌, ◌-◌, ◌≤◌, ◌<◌, ◌≡◌, refl, true, false, Option, none, some, List, arith, any,
  ◌==◌, nat_eq, Bool-cases, Option-cases, subst, inl, inr,
}
use tunnelbridge.Prelude.Result.{Result, ok, err}
use tunnelbridge.Protocol.{TunnelKind}
use tunnelbridge.Server.Error.{AppError, conflict}
use tunnelbridge.Server.Config.{Config}
use tunnelbridge.Server.Db.{Db}
use tunnelbridge.Server.Tunnels.Rows.{kind_str}
use tunnelbridge.Server.Tunnels.Ports.{used_ports, find_port, allocate_port}

abbrev pub IsUsed : List ℕ → ℕ → Type 0
IsUsed used port = any (λ p. p == port) used ≡ true

-- The least port of a range that is free, or none where all of the range is in use.
abbrev pub IsLeastFree : ℕ → ℕ → List ℕ → Option ℕ → Type 0
IsLeastFree first end used none = (q : ℕ) → first ≤ q → q < end → IsUsed used q
IsLeastFree first end used (some p) =
    (first ≤ p)
    × (p < end)
    × (any (λ q. q == p) used ≡ false)
    × ((q : ℕ) → first ≤ q → q < p → IsUsed used q)

extend_free :
    (first end : ℕ) (used : List ℕ) (o : Option ℕ)
    → IsUsed used first
    → IsLeastFree (first + 1) end used o
    → IsLeastFree first end used o
extend_free first end used none h rest = λ q low high. elim (Bool-cases (q == first)) [
  | inl same ↦ subst (IsUsed used) (ground arith) h
  | inr other ↦ rest q (ground arith) high
]
extend_free first end used (some p) h (a, b, c, below) = (
  omega arith,
  b,
  c,
  λ q low high. elim (Bool-cases (q == first)) [
    | inl same ↦ subst (IsUsed used) (ground arith) h
    | inr other ↦ below q (ground arith) high
  ],
)

find_port_lem :
    (n first end : ℕ) (used : List ℕ)
    → end ≡ first + n
    → IsLeastFree first end used (find_port n first used)
unfolding find_port
find_port_lem zero first end used e = λ q low high. absurd (omega arith)
find_port_lem (suc n) first end used e = elim (Bool-cases (any (λ p. p == first) used)) [
  | inl taken ↦ rw taken (
      extend_free first end used (find_port n (first + 1) used) taken
        (find_port_lem n (first + 1) end used (omega arith)))
  | inr free ↦ rw free (omega arith, omega arith, free, λ q low high. absurd (omega arith))
]

-- What `allocate_port` promises of its result.
abbrev pub Allocates : Config → List ℕ → Result AppError ℕ → Type 0
Allocates config used (ok p) = IsLeastFree config.port_start (config.port_end + 1) used (some p)
Allocates config used (err e) =
    (e ≡ conflict "public port pool is exhausted")
    × ((q : ℕ) → config.port_start ≤ q → q ≤ config.port_end → IsUsed used q)

-- If the configured range of ports is not empty, `allocate_port` returns the least port of it that no
-- tunnel of the kind uses; it fails, with a conflict, only where every port of the range is used.
pub allocate_port_lem :
    (config : Config) (db : Db) (kind : TunnelKind)
    → config.port_start ≤ config.port_end
    → Allocates config (used_ports (kind_str kind) db.tunnels) (allocate_port config db kind)
unfolding allocate_port
allocate_port_lem config db kind h =
    let n = config.port_end + 1 - config.port_start in
    let used = used_ports (kind_str kind) db.tunnels in
    let found = find_port n config.port_start used in
    let lem = find_port_lem n config.port_start (config.port_end + 1) used (omega arith) in
    elim (Option-cases found) [
      | inl e ↦ rw e (
        refl,
        λ q low high.
            subst (IsLeastFree config.port_start (config.port_end + 1) used) e lem q low
              (omega arith),
      )
      | inr (p, e) ↦ rw e (subst (IsLeastFree config.port_start (config.port_end + 1) used) e lem)
    ]
