-- ===== src/Server/Tunnels/Ports.antt =====
-- server/src/tunnels.rs, `allocate_port`.
pub mod Laws
use tunnelbridge.Prelude.{
  ℕ, zero, suc, ◌+◌, ◌-◌, Option, none, some, List, [], ◌∷◌, ◌==◌, nat_eq, any, if◌then◌else◌,
}
use tunnelbridge.Prelude.Text.{Text, text_eq}
use tunnelbridge.Prelude.Result.{Result, ok_or}
use tunnelbridge.Protocol.{TunnelKind, kind_eq}
use tunnelbridge.Server.Error.{AppError, conflict}
use tunnelbridge.Server.Config.{Config}
use tunnelbridge.Server.Db.{Db, TunnelRow}
use tunnelbridge.Server.Tunnels.Rows.{kind_str, as_u16}

-- The ports of the rows of one kind, as `allocate_port` selects and converts them.
unfoldable pub used_ports : Text → List TunnelRow → List ℕ
used_ports kind [] = []
used_ports kind (r ∷ rs) =
    let rest = used_ports kind rs in
    if r.kind == kind then elim r.remote_port [ none ↦ rest | some p ↦ as_u16 p ∷ rest ] else rest

-- `(first..).find(|port| !used.contains(port))` over `n` ports.
unfoldable pub find_port : ℕ → ℕ → List ℕ → Option ℕ
unfolding any
find_port zero first used = none
find_port (suc n) first used =
    let rest = find_port n (first + 1) used in
    if any (λ p. p == first) used then rest else some first

unfoldable pub allocate_port : Config → Db → TunnelKind → Result AppError ℕ
unfolding used_ports
allocate_port config db kind =
    ok_or
      (find_port (config.port_end + 1 - config.port_start) config.port_start
        (used_ports (kind_str kind) db.tunnels))
      (conflict "public port pool is exhausted")
