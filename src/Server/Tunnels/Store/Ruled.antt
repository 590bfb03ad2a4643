-- ===== src/Server/Tunnels/Store/Ruled.antt =====
-- The rows of the table `tunnels` under `create` and `update` of server/src/tunnels.rs.
use tunnelbridge.Prelude.{
  ◌≤◌, ◌<◌, ◌^◌, ◌≡◌, refl, sym, subst, ap, ◌∙◌, inl, inr, ◌==◌, if◌then◌else◌, Option, List, arith,
  In,
}
use tunnelbridge.Prelude.Text.{Text, text_eq}
use tunnelbridge.Prelude.Result.{ok, ok_injective}
use tunnelbridge.Net.{IpAddr}
use tunnelbridge.Protocol.{
  Uuid, DateTime, Tunnel, TunnelStatus, CreateTunnelRequest, UpdateTunnelRequest,
}
use tunnelbridge.Server.Config.{Config}
use tunnelbridge.Server.Db.{Db, TunnelRow, select_tunnel, update_tunnel}
use tunnelbridge.Server.Db.Valid.{insert_tunnel_ok, update_row_ok}
use tunnelbridge.Server.Tunnels.Rows.{Columns, tunnel_to_row, row_to_tunnel}
use tunnelbridge.Server.Tunnels.Rows.RoundTrip.{IsU16, row_to_tunnel-tunnel_to_row}
use tunnelbridge.Server.Tunnels.Validate.Laws.{IsTunnel}
use tunnelbridge.Server.Tunnels.Edit.Laws.{edit_ok}
use tunnelbridge.Server.Tunnels.Edit.Port.{edit-IsU16}
use tunnelbridge.Server.Tunnels.Store.{create, update, new_tunnel, set_columns}
use tunnelbridge.Server.Tunnels.Store.Laws.{create_ok, create-IsTunnel}
use tunnelbridge.Server.Tunnels.Store.Update.{update_ok}
use tunnelbridge.Server.Tunnels.Store.Lookup.{endpoint-IsU16}
use tunnelbridge.Server.Tunnels.Store.Enabled.{In-others, In-find, get_row, select_id}

-- A row is that of a tunnel which has what the server promises of one.
abbrev pub IsRuled : Columns → Config → TunnelRow → Type 0
IsRuled columns config r =
    (t : Tunnel) × (r ≡ tunnel_to_row columns t) × IsTunnel config t × (t.local_port < 2 ^ 16)

abbrev pub AreRuled : Columns → Config → List TunnelRow → Type 0
AreRuled columns config rows = (r : TunnelRow) → In r rows → IsRuled columns config r

module _ (columns : Columns) (parse_ip : Text → Option IpAddr) (config : Config) (db db' : Db)
    (range : config.port_start ≤ config.port_end) (small : config.port_end < 2 ^ 16)
    (ruled : AreRuled columns config db.tunnels) where
  pub create-AreRuled :
      (id : Uuid) (now : DateTime) (agent_id : Uuid) (request : CreateTunnelRequest) (t : Tunnel)
      → request.local_port < 2 ^ 16
      → create columns parse_ip config db id now agent_id request ≡ ok (t, db')
      → AreRuled columns config db'.tunnels
  unfolding new_tunnel
  create-AreRuled id now agent_id request t port created r i =
      let (valid, _, _, _) =
        create-IsTunnel columns parse_ip config db id now agent_id request t db' created range in
      let (_, parts) = create_ok columns parse_ip config db id now agent_id request t db' created in
      let table = (insert_tunnel_ok db db' (tunnel_to_row columns t) parts.5).3 in
      elim (subst (λ (d : Db). In r d.tunnels) table i) [
        | inl same ↦
            (t, same, valid, subst (λ (u : Tunnel). u.local_port < 2 ^ 16) (sym parts.4) port)
        | inr j ↦ ruled r j
      ]

  -- What a row of the table is read as.
  read_IsTunnel :
      (row : TunnelRow) (t : Tunnel)
      → IsRuled columns config row
      → row_to_tunnel columns row ≡ ok t
      → IsTunnel config t × (t.local_port < 2 ^ 16) × (row ≡ tunnel_to_row columns t)
  unfolding tunnel_to_row
  read_IsTunnel row t (t0, e, v, port) read =
      let back =
        row_to_tunnel-tunnel_to_row columns t0 port
          (endpoint-IsU16 config t0.kind t0.remote_port t0.hostname small v.endpoint) in
      let status = if t0.enabled then TunnelStatus.starting else TunnelStatus.stopped in
      let same : t ≡ record t0 { status = status } =
        ok_injective (sym read ∙ (ap (row_to_tunnel columns) e ∙ back)) in
      let valid : IsTunnel config (record t0 { status = status }) = record {
        named = v.named;
        short = v.short;
        port = v.port;
        host = v.host;
        scheme = v.scheme;
        endpoint = v.endpoint;
        guarded = v.guarded;
      } in
      (
        subst (IsTunnel config) (sym same) valid,
        subst (λ (u : Tunnel). u.local_port < 2 ^ 16) (sym same) port,
        e ∙ ap (tunnel_to_row columns) (sym same),
      )

  written_row :
      (t u : Tunnel)
      → u.id ≡ t.id
      → u.agent_id ≡ t.agent_id
      → u.kind ≡ t.kind
      → u.created_at ≡ t.created_at
      → set_columns columns u (tunnel_to_row columns t) ≡ tunnel_to_row columns u
  unfolding set_columns tunnel_to_row
  written_row t u id agent kind at = rw (id, agent, kind, at) refl

  pub update-AreRuled :
      (id : Uuid) (now : DateTime) (owner : Option Uuid) (request : UpdateTunnelRequest)
      (t' : Tunnel)
      → IsU16 request.local_port
      → update columns parse_ip config db id now owner request ≡ ok (t', db')
      → AreRuled columns config db'.tunnels
  unfolding update_tunnel
  update-AreRuled id now owner request t' asked updated r i =
      let (t, found, mine, edited, written) =
        update_ok columns db id parse_ip config now owner request t' db' updated in
      let (row, selected, read) = get_row columns db id t found in
      let row_id = select_id columns db id row selected in
      let j =
        In-find (λ r. r.id == columns.uuid_text id) db.tunnels row
          (unfold select_tunnel in selected) in
      let (valid, port, same) = read_IsTunnel row t (ruled row j) read in
      let (kept, valid') = edit_ok parse_ip config now request t t' edited valid in
      let port' = edit-IsU16 parse_ip config now request t t' asked port edited in
      let written_id : columns.uuid_text t.id ≡ row.id =
        unfold tunnel_to_row in sym (ap TunnelRow.id same) in
      let text : columns.uuid_text t'.id ≡ columns.uuid_text id =
        ap columns.uuid_text kept.same_id ∙ (written_id ∙ row_id) in
      let by_row : update_tunnel db (columns.uuid_text id) (set_columns columns t') ≡ ok db' =
        rw text at written in
      let table =
        (update_row_ok db db' row (set_columns columns t' row)
          (ground (arith, selected, by_row))).2 in
      let new : set_columns columns t' row ≡ tunnel_to_row columns t' =
        ap (set_columns columns t') same
        ∙ written_row t t' kept.same_id kept.same_agent kept.same_kind kept.same_creation in
      elim (subst (λ (d : Db). In r d.tunnels) table i) [
        | inl first ↦ (t', first ∙ new, valid', port')
        | inr k ↦ ruled r (In-others row.id db.tunnels r k).0
      ]
