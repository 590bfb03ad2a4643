-- ===== src/Server/Api/Tables/Sound.antt =====
-- The tables of tunnels and devices in every run of the handlers of server/src/api.rs.
use tunnelbridge.Prelude.{
  ◌≤◌, ◌<◌, ◌^◌, sym, subst, not, Bool, Bool-cases, inl, inr, Option, List, [], ◌∷◌, In, filter,
  ◌==◌,
}
use tunnelbridge.Prelude.Text.{Text, text_eq}
use tunnelbridge.Net.{IpAddr}
use tunnelbridge.Server.Config.{Config}
use tunnelbridge.Server.State.{AppState}
use tunnelbridge.Server.Db.{Db, TunnelRow, delete_tunnel}
use tunnelbridge.Server.Db.Valid.{IsValid, delete_tunnel-IsValid}
use tunnelbridge.Server.Devices.{delete_rows}
use tunnelbridge.Server.Tunnels.Rows.{Columns}
use tunnelbridge.Server.Tunnels.Store.Laws.{create-IsValid}
use tunnelbridge.Server.Tunnels.Store.Update.{update-IsValid}
use tunnelbridge.Server.Tunnels.Store.Enabled.{In-others}
use tunnelbridge.Server.Tunnels.Store.Ruled.{AreRuled, create-AreRuled, update-AreRuled}
use tunnelbridge.Server.Api.Tables.{IsKept, IsValid-KeepsDevices}
use tunnelbridge.Server.Api.Tables.Rows.{delete_rows-IsValid}
use tunnelbridge.Server.Api.Tables.Runs.{Run, Run-On}

In-filter :
    (p : TunnelRow → Bool) (rs : List TunnelRow) (r : TunnelRow) → In r (filter p rs) → In r rs
unfolding filter
In-filter p [] r i = i
In-filter p (x ∷ xs) r i = elim (Bool-cases (p x)) [
  | inr e ↦ inr (In-filter p xs r (rw e at i))
  | inl e ↦ elim (rw e at i) [ inl same ↦ inl same | inr j ↦ inr (In-filter p xs r j) ]
]

-- The pool is a range of 16-bit ports that is not empty, the table satisfies its constraints, and every
-- row is that of a tunnel with what the server promises of one.
pub record IsSound (columns : Columns) (config : Config) (db : Db) : Type 0 where
  pub range : config.port_start ≤ config.port_end
  pub small : config.port_end < 2 ^ 16
  pub valid : IsValid db
  pub ruled : AreRuled columns config db.tunnels

module _ (columns : Columns) (parse_ip : Text → Option IpAddr) where
  IsSound-IsKept : IsKept columns parse_ip (IsSound columns)
  unfolding delete_tunnel delete_rows
  IsSound-IsKept = record {
    same_tunnels = λ config db db' same keeps p. record {
      range = p.range;
      small = p.small;
      valid = IsValid-KeepsDevices db db' same keeps p.valid;
      ruled = subst (AreRuled columns config) (sym same) p.ruled;
    };
    after_create = λ config db db' id now agent_id request t port e p. record {
      range = p.range;
      small = p.small;
      valid = (create-IsValid columns parse_ip config db id now agent_id request t db' e p.valid).0;
      ruled =
          create-AreRuled columns parse_ip config db db' p.range p.small p.ruled id now agent_id
            request t port e;
    };
    after_update = λ config db db' id now owner request t port e p. record {
      range = p.range;
      small = p.small;
      valid = update-IsValid columns db id parse_ip config now owner request t db' e p.valid;
      ruled =
          update-AreRuled columns parse_ip config db db' p.range p.small p.ruled id now owner
            request t port e;
    };
    after_delete = λ config db id p. record {
      range = p.range;
      small = p.small;
      valid = delete_tunnel-IsValid db id p.valid;
      ruled = λ r i. p.ruled r (In-others id db.tunnels r i).0;
    };
    after_delete_rows = λ config db id p. record {
      range = p.range;
      small = p.small;
      valid = delete_rows-IsValid columns db id p.valid;
      ruled = λ r i. p.ruled r (In-filter (λ t. not (t.agent_id == id)) db.tunnels r i);
    };
  }

  -- If the pool of ports is a range of 16-bit numbers that is not empty, and the table of tunnels satisfies
  -- its constraints and holds only tunnels with what the server promises of one (`IsTunnel`: a name,
  -- local target, scheme, port of the pool or hostname under the base domain, and list of networks that
  -- the checks allow), then so it is after any number of requests that create, change or delete tunnels,
  -- by a device or by the administrator, or create, revoke or delete devices, in any order.
  pub Run-IsSound :
      (hash_token : Text → Text) (uri_authority : Text → Option Text) {s s' : AppState}
      → Run columns hash_token parse_ip uri_authority s s'
      → IsSound columns s.config s.db
      → IsSound columns s'.config s'.db
  Run-IsSound hash_token uri_authority run p =
      Run-On columns hash_token parse_ip uri_authority (IsSound columns) IsSound-IsKept run p
