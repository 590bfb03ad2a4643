-- ===== src/Server/Api/Tables.antt =====
-- What the handlers of server/src/api.rs that write to the tables of tunnels or devices keep: a property
-- that every statement keeps is kept by every handler.
pub mod Rows
pub mod Agent
pub mod Admin
pub mod Runs
pub mod Sound
use tunnelbridge.Prelude.{
  ◌≡◌, ◌<◌, ◌^◌, refl, sym, subst, ap, ℕ, Bool, true, false, not, Option, some, none, List, [], ◌∷◌,
  arith, any, All, filter, ◌==◌, Bool-cases, inl, inr,
}
use tunnelbridge.Prelude.Text.{Text, text_eq}
use tunnelbridge.Prelude.Result.{Result, ok, err, Result-cases, >>=-eq-ok, >>-eq-ok, ok_injective}
use tunnelbridge.Net.{IpAddr}
use tunnelbridge.Protocol.{
  Uuid, DateTime, Tunnel, AgentControlMessage, CreateTunnelRequest, UpdateTunnelRequest,
}
use tunnelbridge.Server.Config.{Config}
use tunnelbridge.Server.Db.{Db, DeviceRow, TunnelRow, delete_tunnel, row_check, clash, has_device}
use tunnelbridge.Server.Db.Valid.{IsValid, Distinct, delete_tunnel-IsValid}
use tunnelbridge.Server.State.{AppState}
use tunnelbridge.Server.Headers.{Headers}
use tunnelbridge.Server.Headers
use tunnelbridge.Server.Error.{AppError}
use tunnelbridge.Server.Auth.{require_admin, require_device, DeviceIdentity}
use tunnelbridge.Server.Auth.Admin.{require_admin_db, require_admin_config}
use tunnelbridge.Server.Carrier.{sync_agent, send_lossy}
use tunnelbridge.Server.Gateway.Connection.{send_control}
use tunnelbridge.Server.Devices.{
  audit, set_revoked, revoke, revoke_device, delete_rows, delete_revoked, delete_device_permanently,
  deletable, disconnect,
}
use tunnelbridge.Server.Listeners.{
  NewListener, stop_listener, start_listener, bind_listener, run_task, reconcile_listener,
  stop_listeners,
}
use tunnelbridge.Server.Tunnels.Rows.{Columns}
use tunnelbridge.Server.Tunnels.Store
use tunnelbridge.Server.Tunnels.Store.{create, update, check_owner, foreign_owner, delete}
use tunnelbridge.Server.Tunnels.Rows.RoundTrip.{IsU16}
use tunnelbridge.Server.Api.Status.{create_device}
use tunnelbridge.Server.Api.Handlers.{
  settle, settle_deleted, as_device, agent_create_tunnel, agent_update_tunnel, agent_delete_tunnel,
  admin_update_tunnel, admin_delete_tunnel,
}

-- Every device that is known stays known.
unfoldable pub KeepsDevices : Db → Db → Type 0
KeepsDevices db db' = (id : Text) → has_device db id ≡ true → has_device db' id ≡ true

pub All-mono :
    (P Q : TunnelRow → Type 0) (rs : List TunnelRow)
    → ((r : TunnelRow) → P r → Q r)
    → All P rs
    → All Q rs
All-mono P Q [] f h = tt
All-mono P Q (r ∷ rs) f h = (f r h.0, All-mono P Q rs f h.1)

pub IsValid-KeepsDevices :
    (db db' : Db) → db'.tunnels ≡ db.tunnels → KeepsDevices db db' → IsValid db → IsValid db'
unfolding KeepsDevices
IsValid-KeepsDevices db db' same keeps v = record {
  distinct = subst Distinct (sym same) v.distinct;
  checked = subst (All (λ r. row_check r ≡ true)) (sym same) v.checked;
  owned = subst (All (λ r. has_device db' r.agent_id ≡ true)) (sym same) (
      All-mono (λ r. has_device db r.agent_id ≡ true) (λ r. has_device db' r.agent_id ≡ true)
        db.tunnels (λ r. keeps r.agent_id) v.owned);
}

-- A property of the configuration and the database that every statement on tunnels and devices keeps. The
-- port of a request is a 16-bit number.
pub record IsKept (columns : Columns) (parse_ip : Text → Option IpAddr) (P : Config → Db → Type 0)
    : Type 0 where
  pub same_tunnels :
      (config : Config) (db db' : Db)
      → db'.tunnels ≡ db.tunnels
      → KeepsDevices db db'
      → P config db
      → P config db'
  pub after_create :
      (config : Config) (db db' : Db) (id : Uuid) (now : DateTime) (agent_id : Uuid)
      (request : CreateTunnelRequest) (t : Tunnel)
      → request.local_port < 2 ^ 16
      → create columns parse_ip config db id now agent_id request ≡ ok (t, db')
      → P config db
      → P config db'
  pub after_update :
      (config : Config) (db db' : Db) (id : Uuid) (now : DateTime) (owner : Option Uuid)
      (request : UpdateTunnelRequest) (t : Tunnel)
      → IsU16 request.local_port
      → update columns parse_ip config db id now owner request ≡ ok (t, db')
      → P config db
      → P config db'
  pub after_delete :
      (config : Config) (db : Db) (id : Text) → P config db → P config (delete_tunnel db id)
  pub after_delete_rows :
      (config : Config) (db : Db) (id : Text) → P config db → P config (delete_rows columns db id)

send_lossy_db : (s : AppState) (id : Uuid) (m : AgentControlMessage) → (send_lossy s id m).db ≡ s.db
unfolding send_lossy send_control
send_lossy_db s id m = ground arith

pub sync_agent_db :
    (columns : Columns) (s : AppState) (id : Uuid) → (sync_agent columns s id).db ≡ s.db
unfolding sync_agent send_lossy send_control
sync_agent_db columns s id = ground arith

pub stop_listener_db : (s : AppState) (id : Uuid) → (stop_listener s id).db ≡ s.db
unfolding stop_listener
stop_listener_db s id = ground arith

pub reconcile_listener_db :
    (s : AppState) (t : Tunnel) (token : ℕ) → (reconcile_listener s t token).db ≡ s.db
unfolding reconcile_listener start_listener stop_listener
reconcile_listener_db s t token = ground arith

pub run_task_db : (s : AppState) (t : Tunnel) (bound : Option Bool) → (run_task s t bound).db ≡ s.db
unfolding run_task bind_listener
run_task_db s t none = refl
run_task_db s t (some b) = ground arith

send_lossy_config :
    (s : AppState) (id : Uuid) (m : AgentControlMessage) → (send_lossy s id m).config ≡ s.config
unfolding send_lossy send_control
send_lossy_config s id m = ground arith

pub sync_agent_config :
    (columns : Columns) (s : AppState) (id : Uuid) → (sync_agent columns s id).config ≡ s.config
unfolding sync_agent send_lossy send_control
sync_agent_config columns s id = ground arith

pub stop_listener_config : (s : AppState) (id : Uuid) → (stop_listener s id).config ≡ s.config
unfolding stop_listener
stop_listener_config s id = ground arith

pub reconcile_listener_config :
    (s : AppState) (t : Tunnel) (token : ℕ) → (reconcile_listener s t token).config ≡ s.config
unfolding reconcile_listener start_listener stop_listener
reconcile_listener_config s t token = ground arith

pub run_task_config :
    (s : AppState) (t : Tunnel) (bound : Option Bool) → (run_task s t bound).config ≡ s.config
unfolding run_task bind_listener
run_task_config s t none = refl
run_task_config s t (some b) = ground arith

module _ (columns : Columns) where
  pub settle_tables :
      (s : AppState) (db : Db) (t : Tunnel) (agent_id : Uuid) (listener : NewListener)
      (action detail : Text) (now : DateTime)
      → ((settle columns s db t agent_id listener action detail now).db.tunnels ≡ db.tunnels)
        × ((settle columns s db t agent_id listener action detail now).db.devices ≡ db.devices)
  unfolding settle audit
  settle_tables s db t agent_id listener action detail now = (
    rw (sync_agent_db, run_task_db, reconcile_listener_db) refl,
    rw (sync_agent_db, run_task_db, reconcile_listener_db) refl,
  )

  settle_config :
      (s : AppState) (db : Db) (t : Tunnel) (agent_id : Uuid) (listener : NewListener)
      (action detail : Text) (now : DateTime)
      → (settle columns s db t agent_id listener action detail now).config ≡ s.config
  unfolding settle audit
  settle_config s db t agent_id listener action detail now =
      rw (sync_agent_config, run_task_config, reconcile_listener_config) refl

module _ (columns : Columns) (parse_ip : Text → Option IpAddr) (P : Config → Db → Type 0)
    (kept : IsKept columns parse_ip P) where
  -- The property of a state.
  abbrev pub On : AppState → Type 0
  On s = P s.config s.db

  -- It does not depend on the other tables and maps.
  pub carry :
      (config : Config) (db : Db) (s' : AppState)
      → s'.config ≡ config
      → s'.db.tunnels ≡ db.tunnels
      → s'.db.devices ≡ db.devices
      → P config db
      → On s'
  carry config db s' same tunnels devices p =
      subst (λ c. P c s'.db) (sym same)
        (kept.same_tunnels config db s'.db tunnels
          (unfold KeepsDevices has_device in λ id h. rw devices h) p)

  pub settle-On :
      (s : AppState) (db : Db) (t : Tunnel) (agent_id : Uuid) (listener : NewListener)
      (action detail : Text) (now : DateTime)
      → P s.config db
      → On (settle columns s db t agent_id listener action detail now)
  settle-On s db t agent_id listener action detail now p =
      let (tunnels, devices) = settle_tables columns s db t agent_id listener action detail now in
      carry s.config db (settle columns s db t agent_id listener action detail now)
        (settle_config columns s db t agent_id listener action detail now) tunnels devices p

  pub settle_deleted-On :
      (s : AppState) (db : Db) (id agent_id : Uuid) (detail : Text) (now : DateTime)
      → P s.config db
      → On (settle_deleted columns s db id agent_id detail now)
  unfolding settle_deleted audit
  settle_deleted-On s db id agent_id detail now p =
      carry s.config db (settle_deleted columns s db id agent_id detail now)
        (rw (sync_agent_config, stop_listener_config) refl)
        (rw (sync_agent_db, stop_listener_db) refl) (rw (sync_agent_db, stop_listener_db) refl) p

  pub delete-On :
      (config : Config) (db db' : Db) (id : Uuid) (owner : Option Uuid)
      → delete columns db id owner ≡ ok db'
      → P config db
      → P config db'
  unfolding delete
  delete-On config db db' id owner h p =
      let (t, found, h1) = >>=-eq-ok (Store.get columns db id) _ h in
      let (mine, written) = >>-eq-ok (check_owner owner t) _ h1 in
      subst (P config) (ok_injective written) (kept.after_delete config db (columns.uuid_text id) p)

  pub as_device-On :
      (hash_token : Text → Text) (s : AppState) (headers : Headers) {A : Type 0}
      (rest : DeviceIdentity → Result AppError A × AppState)
      → ((agent : DeviceIdentity) → On (rest agent).1)
      → On s
      → On (as_device columns hash_token s headers rest).1
  unfolding as_device
  as_device-On hash_token s headers rest each p =
      elim (Result-cases (require_device columns hash_token s.db headers)) [
        | inl (agent, e) ↦ rw (as_device, e) (each agent)
        | inr (e, failed) ↦ rw (as_device, failed) p
      ]

  pub as_admin-On :
      (uri_authority : Text → Option Text) (s : AppState) (instant : ℕ) (headers : Headers)
      (method : Headers.Method)
      → On s
      → On (require_admin uri_authority s instant headers method).1
  as_admin-On uri_authority s instant headers method p =
      rw
        (
          require_admin_db uri_authority s instant headers method,
          require_admin_config uri_authority s instant headers method,
        )
        p
