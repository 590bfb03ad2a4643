-- ===== src/Relay/Service/Kept.antt =====
-- The server of server/src/api.rs is a `Service`, and so `set_all_enabled` of
-- desktop/src-tauri/src/commands.rs does what it says when this server answers it.
use tunnelbridge.Prelude.{
  ◌≡◌, refl, sym, subst, ap, ◌∙◌, ◌⊎◌, inl, inr, ℕ, Bool, Option, some, List, In, All, ◌++◌,
}
use tunnelbridge.Prelude.Text.{Text, codes}
use tunnelbridge.Prelude.Result.{ok}
use tunnelbridge.Net.{IpAddr}
use tunnelbridge.Protocol.{Uuid, Tunnel}
use tunnelbridge.Server.Error.{Message}
use tunnelbridge.Server.Db.{Db}
use tunnelbridge.Server.State.{AppState}
use tunnelbridge.Server.Headers.{Headers}
use tunnelbridge.Server.Auth.{require_device, authenticate_device_token, DeviceIdentity}
use tunnelbridge.Server.Tunnels.Rows.{Columns}
use tunnelbridge.Server.Tunnels.Queries.Laws.{Has, list_for_agent_sound, list_for_agent_complete}
use tunnelbridge.Server.Tunnels.Edit.Enabled.{only}
use tunnelbridge.Server.Tunnels.Store.{update}
use tunnelbridge.Server.Tunnels.Store.Enabled.{
  Written, update_only-devices, update_only-Written, update_only-Has,
}
use tunnelbridge.Server.Api.Status.{decorate_tunnel, decorate_tunnels}
use tunnelbridge.Server.Api.Tables.{settle_tables}
use tunnelbridge.Agent.Runtime.{AgentConfig}
use tunnelbridge.Agent.Config.{App}
use tunnelbridge.Agent.Commands.{
  Http, get_tunnels, patch_tunnel, as_tunnels, as_tunnel, request, only_enabled, credentials,
  set_all_enabled,
}
use tunnelbridge.Agent.Commands.Enabled.{Service, Shows, set_all_enabled_lem}
use tunnelbridge.Relay.Service.{World, Draws, bearer, http}
use tunnelbridge.Relay.Service.Laws.{
  In-map, map-In, HoldsIn, Holds, Ready, list_state, list_answer, update_answer,
}

require_device-devices :
    (columns : Columns) (hash_token : Text → Text) (db db' : Db) (headers : Headers)
    → db'.devices ≡ db.devices
    → require_device columns hash_token db' headers ≡ require_device columns hash_token db headers
unfolding require_device authenticate_device_token
require_device-devices columns hash_token db db' headers e = rw e refl

module _ (columns : Columns) (hash_token : Text → Text) (token : Text) (who : DeviceIdentity)
    (text_of : Message → Text) (parse_ip : Text → Option IpAddr) (fingerprint certificate : Text)
    (draws : Draws) (decode_error : Text) (print_status : ℕ → Text) (server : Text) where
  abbrev pub api : Http World
  api =
      http text_of columns hash_token parse_ip fingerprint certificate draws decode_error
        print_status

  get_sound :
      (w : World) (ts : List Tunnel) (u : Tunnel)
      → Ready columns hash_token token who w
      → (request api as_tunnels w server token get_tunnels).0 ≡ ok ts
      → In u ts
      → Holds columns hash_token token who (request api as_tunnels w server token get_tunnels).1 u
  unfolding HoldsIn decorate_tunnels
  get_sound w ts u ready h i =
      let (raw, listed, e) =
        list_answer columns hash_token token who text_of parse_ip fingerprint certificate draws
          decode_error print_status server w ts ready h in
      let (t, j, same) = In-map (decorate_tunnel w.state) raw u (subst (In u) e i) in
      rw
        (list_state columns hash_token token who text_of parse_ip fingerprint certificate draws
          decode_error print_status server w)
        (t, list_for_agent_sound columns w.state.db who.id raw listed t j, same)

  -- The state after the list is the state before.
  same_state : (w : World) → (request api as_tunnels w server token get_tunnels).1.state ≡ w.state
  same_state w =
      list_state columns hash_token token who text_of parse_ip fingerprint certificate draws
        decode_error print_status server w

  get_complete :
      (w : World) (ts : List Tunnel) (u : Tunnel)
      → Ready columns hash_token token who w
      → (request api as_tunnels w server token get_tunnels).0 ≡ ok ts
      → Holds columns hash_token token who (request api as_tunnels w server token get_tunnels).1 u
      → In u ts
  unfolding HoldsIn decorate_tunnels
  get_complete w ts u ready h held =
      let (raw, listed, e) =
        list_answer columns hash_token token who text_of parse_ip fingerprint certificate draws
          decode_error print_status server w ts ready h in
      let (t, has, same) =
        subst (λ (s : AppState). HoldsIn columns hash_token token who s u) (same_state w) held in
      subst (In u) (sym e) (
        rw same (
          map-In (decorate_tunnel w.state) raw t
            (list_for_agent_complete columns w.state.db who.id raw listed t has)))

  get_same :
      (w : World) (ts : List Tunnel) (u : Tunnel)
      → Ready columns hash_token token who w
      → (request api as_tunnels w server token get_tunnels).0 ≡ ok ts
      → Holds columns hash_token token who (request api as_tunnels w server token get_tunnels).1 u
      → Holds columns hash_token token who w u
  get_same w ts u ready h held =
      subst (λ (s : AppState). HoldsIn columns hash_token token who s u) (same_state w) held

  module _ (w : World) (id : Uuid) (enabled : Bool) (t : Tunnel)
      (ready : Ready columns hash_token token who w)
      (done : (request api as_tunnel w server token (patch_tunnel id (only_enabled enabled))).0
        ≡ ok t) where
    -- The tables after the change.
    patched_tables :
        (t' : Tunnel) × (db' : Db) × (update columns parse_ip w.state.config w.state.db id
            (draws.now_of w.served)
            (some who.id)
            (only enabled)
          ≡ ok (t', db'))
        × ((request api as_tunnel w server token
              (patch_tunnel id (only_enabled enabled))).1.state.db.tunnels
            ≡ db'.tunnels)
        × ((request api as_tunnel w server token
              (patch_tunnel id (only_enabled enabled))).1.state.db.devices
            ≡ db'.devices)
    patched_tables =
        let (t', db', e, left) =
          update_answer columns hash_token token who text_of parse_ip fingerprint certificate draws
            decode_error print_status server w id enabled t ready done in
        let (tunnels, devices) =
          settle_tables columns w.state db' t' who.id (draws.listener_of w.served)
            (codes "tunnel.update") (codes "updated by device " ++ who.name)
            (draws.now_of w.served) in
        (
          t',
          db',
          e,
          ap (λ (s : AppState). s.db.tunnels) left ∙ tunnels,
          ap (λ (s : AppState). s.db.devices) left ∙ devices,
        )

    patch_ok :
        Ready columns hash_token token who
          (request api as_tunnel w server token (patch_tunnel id (only_enabled enabled))).1
    patch_ok =
        let (t', db', e, tunnels, devices) = patched_tables in
        record {
          known =
              require_device-devices columns hash_token w.state.db _ (bearer token) (
                devices
                ∙ update_only-devices columns parse_ip w.state.config w.state.db db' id
                    (draws.now_of w.served) (some who.id) enabled t' e)
              ∙ ready.known;
          written = subst (Written columns) (sym tunnels) (
              update_only-Written columns parse_ip w.state.config w.state.db db' id
                (draws.now_of w.served) (some who.id) enabled t' e ready.written);
        }

    patched :
        (u : Tunnel)
        → Holds columns hash_token token who
            (request api as_tunnel w server token (patch_tunnel id (only_enabled enabled))).1
            u
        → (u.enabled ≡ enabled)
          ⊎ (¬ (u.id ≡ id)
              × ((t' : Tunnel) × Holds columns hash_token token who w t'
                  × (t'.id ≡ u.id)
                  × (t'.enabled ≡ u.enabled)))
    unfolding HoldsIn Has decorate_tunnel
    patched u (raw, (r, i, mine, read), same) =
        let (t', db', e, tunnels, devices) = patched_tables in
        elim (update_only-Has columns parse_ip w.state.config w.state.db db' id
          (draws.now_of w.served) (some who.id) enabled t' e who.id raw ready.written
          (r, subst (In r) tunnels i, mine, read)) [
            | inl wanted ↦ inl (ap Tunnel.enabled same ∙ wanted)
            | inr (other, has) ↦ inr (
              λ bad. other (sym (ap Tunnel.id same) ∙ bad),
              (
                decorate_tunnel w.state raw,
                (raw, has, refl),
                sym (ap Tunnel.id same),
                sym (ap Tunnel.enabled same),
              ),
            )
          ]

  service :
      Service api server token
        (Holds columns hash_token token who)
        (Ready columns hash_token token who)
  service = record {
    get_sound = get_sound;
    get_complete = get_complete;
    get_same = get_same;
    patch_ok = patch_ok;
    patched = λ w id enabled t u ready done. patched w id enabled t ready done u;
  }

  -- The client and the server together: if the agent's configuration and token are those of a device, the
  -- agent shows the tunnels that the server holds for the device, and `set_all_enabled` succeeds, then
  -- the agent shows the tunnels that the server holds for the device afterwards, and every one of them is
  -- enabled, or every one disabled, as asked. The identifiers in the table are texts that the server has
  -- written.
  pub set_all_enabled_served :
      (uuid_text : Uuid → Text) (no_entry : Text) (app : App) (config : AgentConfig) (w : World)
      (enabled : Bool)
      → config.server_url ≡ server
      → credentials api uuid_text no_entry app ≡ ok (config, token)
      → Ready columns hash_token token who w
      → Shows (Holds columns hash_token token who) w app.runtime.tunnels
      → (set_all_enabled api uuid_text no_entry app w enabled).0 ≡ ok tt
      → Shows
          (Holds columns hash_token token who)
          (set_all_enabled api uuid_text no_entry app w enabled).2
          (set_all_enabled api uuid_text no_entry app w enabled).1.runtime.tunnels
        × All
            (λ t. t.enabled ≡ enabled)
            (set_all_enabled api uuid_text no_entry app w enabled).1.runtime.tunnels
  set_all_enabled_served uuid_text no_entry app config w enabled same known ready shows done =
      set_all_enabled_lem api uuid_text no_entry app config token
        (Holds columns hash_token token who) (Ready columns hash_token token who)
        (subst
          (λ (url : Text).
            Service api url token (Holds columns hash_token token who)
              (Ready columns hash_token token who))
          (sym same) service)
        known w enabled ready shows done
