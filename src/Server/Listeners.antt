-- ===== src/Server/Listeners.antt =====
-- server/src/gateway.rs: the table of listeners. The number that stands for a listener's
-- cancellation token is put in `cancelled_listeners` when the token is cancelled. A start is two
-- functions: what it does at once, and what its task does when it knows whether the port is bound.
-- The pause of 25 milliseconds in `reconcile_listener` is left out.
use tunnelbridge.Prelude.{
  ℕ, ◌+◌, Bool, true, false, not, ◌&&◌, none, some, List, [], ◌∷◌, nat_eq, ◌==◌, if◌then◌else◌,
  Option,
}
use tunnelbridge.Prelude.Map.{get, insert, remove}
use tunnelbridge.Protocol.{Uuid, Tunnel, TunnelKind, kind_eq}
use tunnelbridge.Prelude.Result.{Result, ok, err}
use tunnelbridge.Server.Error.{AppError}
use tunnelbridge.Server.State.{AppState, count_failed}
use tunnelbridge.Server.Tunnels.Rows.{Columns}
use tunnelbridge.Server.Tunnels.Queries.{list_all}

unfoldable pub stop_listener : AppState → Uuid → AppState
stop_listener s tunnel_id = elim (get s.listeners tunnel_id) [
  | none ↦ s
  | some token ↦ record s {
    listeners = remove s.listeners tunnel_id;
    cancelled_listeners = token ∷ s.cancelled_listeners;
  }
]

-- `for tunnel_id in tunnel_ids { gateway::stop_listener(&state, tunnel_id); }`
unfoldable pub stop_listeners : AppState → List Uuid → AppState
unfolding stop_listener
stop_listeners s [] = s
stop_listeners s (id ∷ ids) = stop_listeners (stop_listener s id) ids

-- `tunnel.enabled && tunnel.kind != TunnelKind::Web`
unfoldable pub listens : Tunnel → Bool
listens tunnel = tunnel.enabled && not (tunnel.kind == TunnelKind.web)

-- The part of `start_listener`, and of its namesake in server/src/udp.rs, before the task.
unfoldable pub start_listener : AppState → Tunnel → ℕ → AppState
start_listener s tunnel token = record s { listeners = insert s.listeners tunnel.id token }

-- The task's first steps; the Boolean of the result says whether its loop begins.
unfoldable pub bind_listener : AppState → Tunnel → Bool → Bool × AppState
unfolding count_failed
bind_listener s tunnel is_bound = elim tunnel.remote_port [
  | none ↦ (false, s)
  | some port ↦
      if is_bound
      then (true, s)
      else (false, count_failed (record s { listeners = remove s.listeners tunnel.id }))
]

unfoldable pub reconcile_listener : AppState → Tunnel → ℕ → AppState
unfolding stop_listener listens start_listener
reconcile_listener s tunnel token =
    let s' = stop_listener s tunnel.id in
    if listens tunnel then start_listener s' tunnel token else s'

-- A listener that a handler starts: the number of its token, and what its task has done when the handler
-- answers. It has bound its port (`some true`), it could not (`some false`), or it has not run yet.
pub record NewListener : Type 0 where
  pub token : ℕ
  pub bound : Option Bool

-- The task of a listener that has just been started, if it was.
unfoldable pub run_task : AppState → Tunnel → Option Bool → AppState
unfolding bind_listener listens
run_task s tunnel none = s
run_task s tunnel (some is_bound) =
    if listens tunnel then (bind_listener s tunnel is_bound).1 else s

-- The loop of `restore_listeners`; `tokens` counts the tokens made so far.
unfoldable pub restore : AppState → List Tunnel → ℕ → AppState
unfolding listens start_listener
restore s [] tokens = s
restore s (t ∷ ts) tokens =
    if listens t then restore (start_listener s t tokens) ts (tokens + 1) else restore s ts tokens

pub restore_listeners : Columns → AppState → Result AppError (Unit {0}) × AppState
unfolding restore
restore_listeners columns s = elim (list_all columns s.db) [
  | err e ↦ (err e, s)
  | ok tunnels ↦ (ok tt, restore s tunnels 0)
]
