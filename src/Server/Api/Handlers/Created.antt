-- ===== src/Server/Api/Handlers/Created.antt =====
-- What a device gets when it creates a tunnel.
use tunnelbridge.Prelude.{
  ℕ, ◌≤◌, ◌≡◌, refl, Bool, not, ◌&&◌, some, none, ◌==◌, ap, subst, sym, ◌∙◌, ◌↔◌, true, false,
  Option, ◌++◌, nat_eq, arith, inl, inr,
}
use tunnelbridge.Prelude.Text.{Text, codes}
use tunnelbridge.Prelude.Map.{contains_key}
use tunnelbridge.Prelude.Result.{ok, Result-cases}
use tunnelbridge.Net.{IpAddr}
use tunnelbridge.Protocol.{
  Uuid, DateTime, Tunnel, TunnelKind, kind_eq, TunnelStatus, CreateTunnelRequest,
}
use tunnelbridge.Server.Config.{Config}
use tunnelbridge.Server.State.{AppState}
use tunnelbridge.Server.Headers.{Headers}
use tunnelbridge.Server.Auth.{require_device, DeviceIdentity}
use tunnelbridge.Server.Listeners.{NewListener, listens}
use tunnelbridge.Server.Tunnels.Rows.{Columns}
use tunnelbridge.Server.Tunnels.Store.{create}
use tunnelbridge.Server.Tunnels.Store.Laws.{create-IsTunnel}
use tunnelbridge.Server.Tunnels.Validate.Laws.{IsTunnel, IsAllowedTarget, IsEndpoint}
use tunnelbridge.Server.Api.Status.{decorate_tunnel}
use tunnelbridge.Server.Api.Handlers.Settled.{fails, HasPort, settle_keeps}
use tunnelbridge.Server.Api.Handlers.{settle, as_device, agent_create_tunnel}

-- When a tunnel is shown as online, and when with an error.
decorate_tunnel_shows :
    (s : AppState) (t : Tunnel) (failed : Bool)
    → contains_key s.listeners t.id ≡ (listens t && not failed)
    → (((decorate_tunnel s t).status ≡ TunnelStatus.online) ↔ (
        (t.enabled ≡ true)
        × ((listens t && failed) ≡ false)
        × (contains_key s.agents t.agent_id ≡ true)))
      × (((decorate_tunnel s t).status ≡ TunnelStatus.error)
          ↔ ((listens t ≡ true) × (failed ≡ true)))
unfolding decorate_tunnel listens
decorate_tunnel_shows s t failed h = (
  (λ e. (ground arith, ground arith, ground arith), λ e. ground arith),
  (λ e. (ground arith, ground arith), λ e. ground arith),
)

-- The rules of a tunnel, its owner, its listener, and how it is shown; `bound` is what the listener's
-- task has done.
unfoldable pub Created : AppState → Uuid → Uuid → Option Bool → Tunnel × AppState → Type 0
Created s id agent_id bound (t, s') =
    IsTunnel s.config t
    × (t.id ≡ id)
    × (t.agent_id ≡ agent_id)
    × (contains_key s'.listeners id ≡ (listens t && not (fails bound)))
    × ((t.status ≡ TunnelStatus.online) ↔ (
        (t.enabled ≡ true)
        × ((listens t && fails bound) ≡ false)
        × (contains_key s.agents agent_id ≡ true)))
    × ((t.status ≡ TunnelStatus.error) ↔ ((listens t ≡ true) × (fails bound ≡ true)))

decorated-Created :
    (s s' : AppState) (id agent_id : Uuid) (bound : Option Bool) (u : Tunnel)
    → IsTunnel s.config u
    → u.id ≡ id
    → u.agent_id ≡ agent_id
    → contains_key s'.listeners u.id ≡ (listens u && not (fails bound))
    → s'.agents ≡ s.agents
    → Created s id agent_id bound (decorate_tunnel s' u, s')
unfolding Created
decorated-Created s s' id agent_id bound u v same owned listening agents =
    let ((there, back), broken) = decorate_tunnel_shows s' u (fails bound) listening in
    let known : contains_key s'.agents u.agent_id ≡ contains_key s.agents agent_id =
      rw (agents, owned) refl in
    unfold decorate_tunnel listens in
    (
      record {
        named = v.named;
        short = v.short;
        port = v.port;
        host = v.host;
        scheme = v.scheme;
        endpoint = v.endpoint;
        guarded = v.guarded;
      },
      same,
      owned,
      ap (contains_key s'.listeners) (sym same) ∙ listening,
      (
        λ e. let (on, bound, online) = there e in (on, bound, sym known ∙ online),
        λ (on, bound, online). back (on, bound, known ∙ online),
      ),
      broken,
    )

endpoint-HasPort :
    (config : Config) (kind : TunnelKind) (port : Option ℕ) (hostname : Option Text)
    → (kind == TunnelKind.web) ≡ false
    → IsEndpoint config kind port hostname
    → (p : ℕ) × (port ≡ some p)
endpoint-HasPort config kind (some p) hostname h e = (p, refl)
endpoint-HasPort config TunnelKind.web none hostname h e = cc
endpoint-HasPort config TunnelKind.tcp none hostname h e = absurd e
endpoint-HasPort config TunnelKind.udp none hostname h e = absurd e

IsTunnel-HasPort : (config : Config) (t : Tunnel) → IsTunnel config t → HasPort t
unfolding listens
IsTunnel-HasPort config t v on =
    endpoint-HasPort config t.kind t.remote_port t.hostname (ground arith) v.endpoint

-- A device's request to create a tunnel that succeeds was made with a token of a device that is not
-- revoked. The tunnel of the answer keeps the rules of a tunnel, has the new identifier and belongs to
-- that device; its target is the device itself unless the request confirms another. It has a listener
-- exactly if it is enabled, not a web tunnel, and the listener's task has not failed to bind the port while
-- the handler waited. It is shown as online exactly if it is enabled, no such failure has happened, and
-- the device is connected, and with an error exactly after such a failure. The pool of ports is a range
-- that is not empty; no other task changes the state while the handler waits.
pub agent_create_tunnel_lem :
    (columns : Columns) (hash_token : Text → Text) (parse_ip : Text → Option IpAddr)
    (s s' : AppState) (headers : Headers) (request : CreateTunnelRequest) (id : Uuid)
    (listener : NewListener) (now : DateTime) (t : Tunnel)
    → s.config.port_start ≤ s.config.port_end
    → agent_create_tunnel columns hash_token parse_ip s headers request id listener now ≡ (ok t, s')
    → (agent : DeviceIdentity) × (require_device columns hash_token s.db headers ≡ ok agent)
      × Created s id agent.id listener.bound (t, s')
      × IsAllowedTarget parse_ip request.allow_lan_target t.local_host
unfolding agent_create_tunnel as_device
agent_create_tunnel_lem columns hash_token parse_ip s s' headers request id listener now t range
      done =
    elim (Result-cases (require_device columns hash_token s.db headers)) [
      | inr (e, refused) ↦ absurd (ground (arith, refused))
      | inl (agent, accepted) ↦
          elim (Result-cases (create columns parse_ip s.config s.db id now agent.id request)) [
            | inr (e, failed) ↦ absurd (ground (arith, accepted, failed))
            | inl ((u, db), created) ↦
                let (valid, target, same, owned) =
                  create-IsTunnel columns parse_ip s.config s.db id now agent.id request u db
                    created range in
                let (listening, agents) =
                  settle_keeps columns s db u agent.id listener (codes "tunnel.create")
                    (codes "created by device " ++ agent.name) now
                    (IsTunnel-HasPort s.config u valid) in
                let after =
                  settle columns s db u agent.id listener (codes "tunnel.create")
                    (codes "created by device " ++ agent.name) now in
                let answer : (decorate_tunnel after u, after) ≡ (t, s') =
                  ground (arith, done, accepted, created) in
                (
                  agent,
                  accepted,
                  subst (Created s id agent.id listener.bound) answer (
                      decorated-Created s after id agent.id listener.bound u valid same owned
                        listening agents),
                  subst
                      (λ (p : Tunnel × AppState).
                        IsAllowedTarget parse_ip request.allow_lan_target p.0.local_host)
                      answer (unfold decorate_tunnel in target),
                )
          ]
    ]
