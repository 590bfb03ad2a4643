-- ===== src/Relay/Service/Laws.antt =====
-- The server of server/src/api.rs keeps what desktop/src-tauri/src/commands.rs needs of it.
use tunnelbridge.Prelude.{
  ◌≡◌, refl, ap, inl, inr, ℕ, Bool, true, false, Option, some, List, [], ◌∷◌, ◌++◌, arith, In, map,
  nat_eq,
}
use tunnelbridge.Prelude.Text.{Text, text_eq, codes}
use tunnelbridge.Prelude.Result.{ok, Result-cases}
use tunnelbridge.Net.{IpAddr}
use tunnelbridge.Protocol.{Uuid, Tunnel}
use tunnelbridge.Server.Error.{AppError, Message, into_response}
use tunnelbridge.Server.Db.{Db}
use tunnelbridge.Server.State.{AppState}
use tunnelbridge.Server.Auth.{require_device, DeviceIdentity}
use tunnelbridge.Server.Tunnels.Rows.{Columns}
use tunnelbridge.Server.Tunnels.Queries.{list_for_agent}
use tunnelbridge.Server.Tunnels.Queries.Laws.{Has}
use tunnelbridge.Server.Tunnels.Edit.Enabled.{only}
use tunnelbridge.Server.Tunnels.Store.{update}
use tunnelbridge.Server.Tunnels.Store.Enabled.{Written}
use tunnelbridge.Server.Api.Status.{decorate_tunnel, decorate_tunnels}
use tunnelbridge.Server.Api.Handlers.{agent_list_tunnels, agent_update_tunnel, as_device, settle}
use tunnelbridge.Agent.Commands.{
  get_tunnels, patch_tunnel, as_tunnels, as_tunnel, request, only_enabled, is_success,
}
use tunnelbridge.Relay.Service.{World, Draws, bearer, answer, route, serve, http}

-- An error never has a status of success.
error_status : (e : AppError) → is_success (into_response e).status ≡ false
unfolding is_success into_response
error_status e = ground arith

success : is_success 200 ≡ true
unfolding is_success
success = refl

pub In-map :
    (f : Tunnel → Tunnel) (ts : List Tunnel) (u : Tunnel)
    → In u (map f ts)
    → (t : Tunnel) × In t ts × (u ≡ f t)
In-map f [] u i = absurd i
In-map f (t ∷ ts) u (inl same) = (t, inl refl, same)
In-map f (t ∷ ts) u (inr i) = let (x, j, e) = In-map f ts u i in (x, inr j, e)

pub map-In : (f : Tunnel → Tunnel) (ts : List Tunnel) (t : Tunnel) → In t ts → In (f t) (map f ts)
map-In f [] t i = absurd i
map-In f (x ∷ ts) t (inl same) = inl (ap f same)
map-In f (x ∷ ts) t (inr i) = inr (map-In f ts t i)

module _ (columns : Columns) (hash_token : Text → Text) (token : Text) (who : DeviceIdentity) where
  -- The device's tunnels, with the status that the state gives them.
  unfoldable pub HoldsIn : AppState → Tunnel → Type 0
  HoldsIn s u = (t : Tunnel) × Has columns s.db who.id t × (u ≡ decorate_tunnel s t)

  abbrev pub Holds : World → Tunnel → Type 0
  Holds w u = HoldsIn w.state u

  -- The token is the device's, and the identifiers in the table are texts that the server has written.
  pub record Ready (w : World) : Type 0 where
    pub known : require_device columns hash_token w.state.db (bearer token) ≡ ok who
    pub written : Written columns w.state.db.tunnels

  module _ (text_of : Message → Text) (parse_ip : Text → Option IpAddr)
      (fingerprint certificate : Text) (draws : Draws) (decode_error : Text)
      (print_status : ℕ → Text) (server : Text) where
    pub list_state :
        (w : World)
        → (request
            (http text_of columns hash_token parse_ip fingerprint certificate draws decode_error
              print_status)
            as_tunnels
            w
            server
            token
            get_tunnels).1.state
          ≡ w.state
    unfolding request http serve route agent_list_tunnels as_device
    list_state w = ground arith

    pub list_answer :
        (w : World) (ts : List Tunnel)
        → Ready w
        → (request
            (http text_of columns hash_token parse_ip fingerprint certificate draws decode_error
              print_status)
            as_tunnels
            w
            server
            token
            get_tunnels).0
          ≡ ok ts
        → (raw : List Tunnel) × (list_for_agent columns w.state.db who.id ≡ ok raw)
          × (ts ≡ decorate_tunnels w.state raw)
    unfolding request http serve route agent_list_tunnels as_device answer as_tunnels
    list_answer w ts ready h = elim (Result-cases (list_for_agent columns w.state.db who.id)) [
      | inl (raw, listed) ↦ (raw, listed, ground (arith, ready.known, listed, success))
      | inr (e, failed) ↦ absurd (ground (arith, ready.known, failed, error_status e))
    ]

    pub update_answer :
        (w : World) (id : Uuid) (enabled : Bool) (t : Tunnel)
        → Ready w
        → (request
            (http text_of columns hash_token parse_ip fingerprint certificate draws decode_error
              print_status)
            as_tunnel
            w
            server
            token
            (patch_tunnel id (only_enabled enabled))).0
          ≡ ok t
        → (t' : Tunnel) × (db' : Db) × (update columns parse_ip w.state.config w.state.db id
              (draws.now_of w.served)
              (some who.id)
              (only enabled)
            ≡ ok (t', db'))
          × ((request
                (http text_of columns hash_token parse_ip fingerprint certificate draws decode_error
                  print_status)
                as_tunnel
                w
                server
                token
                (patch_tunnel id (only_enabled enabled))).1.state
              ≡ settle columns w.state db' t' who.id
                  (draws.listener_of w.served)
                  (codes "tunnel.update")
                  (codes "updated by device " ++ who.name)
                  (draws.now_of w.served))
    unfolding request http serve route agent_update_tunnel as_device answer as_tunnel only_enabled
    update_answer w id enabled t ready h =
        elim (Result-cases (
          update columns parse_ip w.state.config w.state.db id (draws.now_of w.served) (some who.id)
            (only enabled))) [
              | inl ((t', db'), e) ↦ (t', db', e, ground (arith, ready.known, e))
              | inr (e, failed) ↦ absurd (ground (arith, ready.known, failed, error_status e))
            ]
