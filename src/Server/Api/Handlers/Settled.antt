-- ===== src/Server/Api/Handlers/Settled.antt =====
-- The listener of a tunnel after a handler of server/src/api.rs has changed the tunnel.
use tunnelbridge.Prelude.{
  ℕ, ◌≡◌, refl, Bool, not, ◌&&◌, some, none, ap, ◌∙◌, true, false, Option, nat_eq, arith,
  Bool-cases, Option-cases, inl, inr, ==_refl,
}
use tunnelbridge.Prelude.Text.{Text}
use tunnelbridge.Prelude.Map.{
  get, contains_key, contains_key-remove, contains_key-insert, not_contains_key,
}
use tunnelbridge.Prelude.Result.{Result-cases}
use tunnelbridge.Protocol.{Uuid, DateTime, Tunnel, kind_eq, AgentControlMessage, config_sync}
use tunnelbridge.Server.Db.{Db}
use tunnelbridge.Server.State.{AppState}
use tunnelbridge.Server.Carrier.{sync_agent, send_lossy}
use tunnelbridge.Server.Gateway.Connection.{send_control}
use tunnelbridge.Server.Devices.{audit}
use tunnelbridge.Server.Listeners.{
  NewListener, stop_listener, listens, start_listener, bind_listener, run_task, reconcile_listener,
}
use tunnelbridge.Server.Tunnels.Rows.{Columns}
use tunnelbridge.Server.Tunnels.Queries.{list_for_agent}
use tunnelbridge.Server.Api.Handlers.{settle}

stop_listener_absent :
    (s : AppState) (id : Uuid) → contains_key (stop_listener s id).listeners id ≡ false
unfolding stop_listener
stop_listener_absent s id = elim (Option-cases (get s.listeners id)) [
  | inl e ↦ ground (arith, e, not_contains_key s.listeners id e)
  | inr (token, e) ↦ ground (arith, e, contains_key-remove s.listeners id id, ==_refl id)
]

reconcile_listener_lem :
    (s : AppState) (t : Tunnel) (token : ℕ)
    → contains_key (reconcile_listener s t token).listeners t.id ≡ listens t
unfolding reconcile_listener start_listener
reconcile_listener_lem s t token = elim (Bool-cases (listens t)) [
  | inl e ↦
      ground (
        arith,
        e,
        contains_key-insert (stop_listener s t.id).listeners t.id t.id token,
        ==_refl t.id,
      )
  | inr e ↦ ground (arith, e, stop_listener_absent s t.id)
]

reconcile_listener_agents :
    (s : AppState) (t : Tunnel) (token : ℕ) → (reconcile_listener s t token).agents ≡ s.agents
unfolding reconcile_listener start_listener stop_listener
reconcile_listener_agents s t token = ground arith

send_lossy_keeps :
    (s : AppState) (id : Uuid) (m : AgentControlMessage)
    → ((send_lossy s id m).listeners ≡ s.listeners) × ((send_lossy s id m).agents ≡ s.agents)
unfolding send_lossy send_control
send_lossy_keeps s id m = (ground arith, ground arith)

sync_agent_keeps :
    (columns : Columns) (s : AppState) (id : Uuid)
    → ((sync_agent columns s id).listeners ≡ s.listeners)
      × ((sync_agent columns s id).agents ≡ s.agents)
unfolding sync_agent
sync_agent_keeps columns s id = elim (Result-cases (list_for_agent columns s.db id)) [
  | inr (e, failed) ↦ (ground (arith, failed), ground (arith, failed))
  | inl (items, listed) ↦ elim (Option-cases (get s.agents id)) [
    | inl gone ↦ (ground (arith, listed, gone), ground (arith, listed, gone))
    | inr (peer, found) ↦
        let (listeners, agents) = send_lossy_keeps s peer.session_id (config_sync items) in
        (ground (arith, listed, found, listeners), ground (arith, listed, found, agents))
  ]
]

-- Whether the task of a new listener could not bind its port while the handler waited.
abbrev pub fails : Option Bool → Bool
fails (some false) = true
fails _ = false

-- A tunnel that should have a listener has a port for it.
abbrev pub HasPort : Tunnel → Type 0
HasPort t = listens t ≡ true → (p : ℕ) × (t.remote_port ≡ some p)

run_task_listeners :
    (s : AppState) (t : Tunnel) (bound : Option Bool)
    → HasPort t
    → contains_key s.listeners t.id ≡ listens t
    → contains_key (run_task s t bound).listeners t.id ≡ (listens t && not (fails bound))
unfolding run_task bind_listener
run_task_listeners s t none port h = ground (arith, h)
run_task_listeners s t (some true) port h = ground (arith, h)
run_task_listeners s t (some false) port h = elim (Bool-cases (listens t)) [
  | inr idle ↦ ground (arith, h, idle)
  | inl on ↦
      let (p, e) = port on in
      ground (arith, h, on, e, contains_key-remove s.listeners t.id t.id, ==_refl t.id)
]

run_task_agents :
    (s : AppState) (t : Tunnel) (bound : Option Bool) → (run_task s t bound).agents ≡ s.agents
unfolding run_task bind_listener
run_task_agents s t none = refl
run_task_agents s t (some b) = ground arith

-- The listener and the agents after a change.
pub settle_keeps :
    (columns : Columns) (s : AppState) (db : Db) (t : Tunnel) (agent_id : Uuid)
    (listener : NewListener) (action detail : Text) (now : DateTime)
    → HasPort t
    → (contains_key (settle columns s db t agent_id listener action detail now).listeners t.id
        ≡ (listens t && not (fails listener.bound)))
      × ((settle columns s db t agent_id listener action detail now).agents ≡ s.agents)
unfolding settle audit
settle_keeps columns s db t agent_id listener action detail now port =
    let started = reconcile_listener (record s { db = db }) t listener.token in
    let s' = run_task started t listener.bound in
    let (listeners, agents) = sync_agent_keeps columns s' agent_id in
    (
      ap (λ m. contains_key m t.id) listeners
          ∙ run_task_listeners started t listener.bound port
              (reconcile_listener_lem (record s { db = db }) t listener.token),
      agents
          ∙ (run_task_agents started t listener.bound
              ∙ reconcile_listener_agents (record s { db = db }) t listener.token),
    )
