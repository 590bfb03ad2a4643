-- ===== src/Agent/Commands/Enabled.antt =====
-- `set_all_enabled_inner` of desktop/src-tauri/src/commands.rs, against what it needs of the server.
use tunnelbridge.Prelude.{
  ◌≡◌, refl, ap, ◌⊎◌, inl, inr, Bool, true, false, List, [], ◌∷◌, arith, In, All, Bool-cases,
}
use tunnelbridge.Prelude.Text.{Text}
use tunnelbridge.Prelude.Result.{Result, ok, err, Result-cases}
use tunnelbridge.Protocol.{Uuid, Tunnel}
use tunnelbridge.Agent.Runtime.{AgentConfig}
use tunnelbridge.Agent.Config.{App}
use tunnelbridge.Agent.Commands.{
  Http, get_tunnels, patch_tunnel, as_tunnels, as_tunnel, request, credentials, as_agent,
  show_tunnels, refresh_tunnels, only_enabled, differs, enable_each, set_all_enabled,
}

-- What a server that holds a device's tunnels promises of two of its requests, when they succeed: the
-- list has exactly the tunnels that the server holds, and a change of `enabled` is made to its tunnel and
-- to no other. `Holds` is what the server holds, and `Ready` what it keeps true of its own state.
pub record Service {W : Type 0} (http : Http W) (server token : Text) (Holds : W → Tunnel → Type 0)
    (Ready : W → Type 0) : Type 0 where
  pub get_sound :
      (w : W) (ts : List Tunnel) (u : Tunnel)
      → Ready w
      → (request http as_tunnels w server token get_tunnels).0 ≡ ok ts
      → In u ts
      → Holds (request http as_tunnels w server token get_tunnels).1 u
  pub get_complete :
      (w : W) (ts : List Tunnel) (u : Tunnel)
      → Ready w
      → (request http as_tunnels w server token get_tunnels).0 ≡ ok ts
      → Holds (request http as_tunnels w server token get_tunnels).1 u
      → In u ts
  pub get_same :
      (w : W) (ts : List Tunnel) (u : Tunnel)
      → Ready w
      → (request http as_tunnels w server token get_tunnels).0 ≡ ok ts
      → Holds (request http as_tunnels w server token get_tunnels).1 u
      → Holds w u
  pub patch_ok :
      (w : W) (id : Uuid) (enabled : Bool) (t : Tunnel)
      → Ready w
      → (request http as_tunnel w server token (patch_tunnel id (only_enabled enabled))).0 ≡ ok t
      → Ready (request http as_tunnel w server token (patch_tunnel id (only_enabled enabled))).1
  pub patched :
      (w : W) (id : Uuid) (enabled : Bool) (t u : Tunnel)
      → Ready w
      → (request http as_tunnel w server token (patch_tunnel id (only_enabled enabled))).0 ≡ ok t
      → Holds (request http as_tunnel w server token (patch_tunnel id (only_enabled enabled))).1 u
      → (u.enabled ≡ enabled)
        ⊎ (¬ (u.id ≡ id) × ((t' : Tunnel) × Holds w t' × (t'.id ≡ u.id) × (t'.enabled ≡ u.enabled)))

-- A list of tunnels is what the server holds.
unfoldable pub Shows : {W : Type 0} → (W → Tunnel → Type 0) → W → List Tunnel → Type 0
Shows Holds w ts = ((u : Tunnel) → Holds w u → In u ts) × All (Holds w) ts

differs_lem : (enabled : Bool) (t : Tunnel) → (t.enabled ≡ enabled) ⊎ (differs enabled t ≡ true)
unfolding differs
differs_lem true t = elim (Bool-cases t.enabled) [ inl e ↦ inl e | inr e ↦ inr (rw e) ]
differs_lem false t = elim (Bool-cases t.enabled) [ inl e ↦ inr (rw e) | inr e ↦ inl e ]

All-In : (P : Tunnel → Type 0) (ts : List Tunnel) → ((u : Tunnel) → In u ts → P u) → All P ts
All-In P [] f = tt
All-In P (t ∷ ts) f = (f t (inl refl), All-In P ts (λ u i. f u (inr i)))

module _ {W : Type 0} (http : Http W) (uuid_text : Uuid → Text) (no_entry : Text) (app : App)
    (config : AgentConfig) (token : Text) (Holds : W → Tunnel → Type 0) (Ready : W → Type 0)
    (service : Service http config.server_url token Holds Ready)
    (known : credentials http uuid_text no_entry app ≡ ok (config, token)) where
  -- Every tunnel of the server has the wanted value, or one of the items with its identifier has not.
  Covers : Bool → List Tunnel → W → Type 0
  Covers enabled items w =
      (u : Tunnel)
      → Holds w u
      → (u.enabled ≡ enabled)
        ⊎ ((t : Tunnel) × In t items × (t.id ≡ u.id) × (differs enabled t ≡ true))

  patch : Bool → W → Tunnel → Result Text Tunnel × W
  patch enabled w t =
      request http as_tunnel w config.server_url token (patch_tunnel t.id (only_enabled enabled))

  Covers-skip :
      (enabled : Bool) (t : Tunnel) (ts : List Tunnel) (w : W)
      → differs enabled t ≡ false
      → Covers enabled (t ∷ ts) w
      → Covers enabled ts w
  unfolding Covers
  Covers-skip enabled t ts w same c u i = elim (c u i) [
    | inl e ↦ inl e
    | inr (x, j, e, d) ↦ elim j [
      | inl this ↦ absurd (ground (arith, ap (differs enabled) this))
      | inr k ↦ inr (x, k, e, d)
    ]
  ]

  Covers-patch :
      (enabled : Bool) (t : Tunnel) (ts : List Tunnel) (w : W) (answer : Tunnel)
      → Ready w
      → (patch enabled w t).0 ≡ ok answer
      → Covers enabled (t ∷ ts) w
      → Covers enabled ts (patch enabled w t).1
  unfolding Covers patch
  Covers-patch enabled t ts w answer ready done c u i =
      elim (service.patched w t.id enabled answer u ready done i) [
        | inl e ↦ inl e
        | inr (other, (t', j, same, equal)) ↦ elim (c t' j) [
          | inl e ↦ inl (cc)
          | inr (x, k, e, d) ↦ elim k [
            | inl this ↦ absurd (other (cc (same, e, ap Tunnel.id this)))
            | inr l ↦ inr (x, l, cc (e, same), d)
          ]
        ]
      ]

  as_agent_known :
      (w : W) (t : Tunnel) (enabled : Bool)
      → as_agent http uuid_text no_entry as_tunnel app w (patch_tunnel t.id (only_enabled enabled))
        ≡ patch enabled w t
  unfolding patch as_agent
  as_agent_known w t enabled = rw (as_agent, known) refl

  -- One turn of the loop.
  skip_step :
      (enabled : Bool) (t : Tunnel) (ts : List Tunnel) (w : W)
      → differs enabled t ≡ false
      → enable_each http uuid_text no_entry app enabled w (t ∷ ts)
        ≡ enable_each http uuid_text no_entry app enabled w ts
  unfolding enable_each
  skip_step enabled t ts w e = rw (enable_each, e) refl

  patch_step :
      (enabled : Bool) (t : Tunnel) (ts : List Tunnel) (w : W) (answer : Tunnel)
      → differs enabled t ≡ true
      → (patch enabled w t).0 ≡ ok answer
      → enable_each http uuid_text no_entry app enabled w (t ∷ ts)
        ≡ enable_each http uuid_text no_entry app enabled (patch enabled w t).1 ts
  unfolding enable_each
  patch_step enabled t ts w answer e done = ground (arith, e, as_agent_known w t enabled, done)

  fail_step :
      (enabled : Bool) (t : Tunnel) (ts : List Tunnel) (w : W) (x : Text)
      → differs enabled t ≡ true
      → (patch enabled w t).0 ≡ err x
      → (enable_each http uuid_text no_entry app enabled w (t ∷ ts)).0 ≡ err x
  unfolding enable_each
  fail_step enabled t ts w x e failed = rw (enable_each, e, as_agent_known w t enabled, failed) refl

  enable_each_lem :
      (enabled : Bool) (items : List Tunnel) (w : W)
      → Ready w
      → Covers enabled items w
      → (enable_each http uuid_text no_entry app enabled w items).0 ≡ ok tt
      → Ready (enable_each http uuid_text no_entry app enabled w items).1
        × Covers enabled [] (enable_each http uuid_text no_entry app enabled w items).1
  enable_each_lem enabled [] w ready c h = unfold enable_each in (ready, c)
  enable_each_lem enabled (t ∷ ts) w ready c h = elim (Bool-cases (differs enabled t)) [
    | inr e ↦
        let step = skip_step enabled t ts w e in
        rw step (enable_each_lem enabled ts w ready (Covers-skip enabled t ts w e c) (rw step at h))
    | inl e ↦ elim (Result-cases (patch enabled w t).0) [
      | inr (x, failed) ↦ absurd (cc (h, fail_step enabled t ts w x e failed))
      | inl (answer, done) ↦
          let step = patch_step enabled t ts w answer e done in
          rw step (
            enable_each_lem enabled ts (patch enabled w t).1
              (unfold patch in service.patch_ok w t.id enabled answer ready done)
              (Covers-patch enabled t ts w answer ready done c) (rw step at h))
    ]
  ]

  get : W → Result Text (List Tunnel) × W
  get w = request http as_tunnels w config.server_url token get_tunnels

  refresh_known :
      (w : W) (ts : List Tunnel)
      → (get w).0 ≡ ok ts
      → refresh_tunnels http uuid_text no_entry app w ≡ (ok tt, show_tunnels app ts, (get w).1)
  unfolding refresh_tunnels as_agent get
  refresh_known w ts done = ground (arith, known, done)

  refresh_fails :
      (w : W) (x : Text)
      → (get w).0 ≡ err x
      → (refresh_tunnels http uuid_text no_entry app w).0 ≡ err x
  unfolding refresh_tunnels as_agent get
  refresh_fails w x failed = ground (arith, known, failed)

  wanted :
      (enabled : Bool) (w : W) (u : Tunnel) → Covers enabled [] w → Holds w u → u.enabled ≡ enabled
  unfolding Covers
  wanted enabled w u c held = elim (c u held) [ inl e ↦ e | inr (t, j, e, d) ↦ absurd j ]

  get-Shows : (w : W) (ts : List Tunnel) → Ready w → (get w).0 ≡ ok ts → Shows Holds (get w).1 ts
  unfolding Shows get
  get-Shows w ts ready done = (
    λ u held. service.get_complete w ts u ready done held,
    All-In (Holds (get w).1) ts (λ u i. service.get_sound w ts u ready done i),
  )

  get_wanted :
      (enabled : Bool) (w : W) (ts : List Tunnel)
      → Ready w
      → Covers enabled [] w
      → (get w).0 ≡ ok ts
      → All (λ t. t.enabled ≡ enabled) ts
  unfolding get
  get_wanted enabled w ts ready c done =
      All-In (λ t. t.enabled ≡ enabled) ts
        (λ u i.
          wanted enabled w u c
            (service.get_same w ts u ready done (service.get_sound w ts u ready done i)))

  refresh_lem :
      (enabled : Bool) (w : W)
      → Ready w
      → Covers enabled [] w
      → (refresh_tunnels http uuid_text no_entry app w).0 ≡ ok tt
      → Shows Holds
          (refresh_tunnels http uuid_text no_entry app w).2
          (refresh_tunnels http uuid_text no_entry app w).1.runtime.tunnels
        × All
            (λ t. t.enabled ≡ enabled)
            (refresh_tunnels http uuid_text no_entry app w).1.runtime.tunnels
  refresh_lem enabled w ready c h = elim (Result-cases (get w).0) [
    | inr (x, failed) ↦ absurd (cc (h, refresh_fails w x failed))
    | inl (ts, done) ↦
        let shown = get-Shows w ts ready done in
        rw (refresh_known w ts done) (
          unfold show_tunnels in shown,
          unfold show_tunnels in get_wanted enabled w ts ready c done,
        )
  ]

  set_fails :
      (enabled : Bool) (w : W) (x : Text)
      → (enable_each http uuid_text no_entry app enabled w app.runtime.tunnels).0 ≡ err x
      → (set_all_enabled http uuid_text no_entry app w enabled).0 ≡ err x
  unfolding set_all_enabled
  set_fails enabled w x failed = ground (arith, failed)

  set_known :
      (enabled : Bool) (w : W)
      → (enable_each http uuid_text no_entry app enabled w app.runtime.tunnels).0 ≡ ok tt
      → set_all_enabled http uuid_text no_entry app w enabled
        ≡ refresh_tunnels http uuid_text no_entry app
            (enable_each http uuid_text no_entry app enabled w app.runtime.tunnels).1
  unfolding set_all_enabled
  set_known enabled w done = ground (arith, done)

  -- If the agent shows the tunnels that the server holds, and `set_all_enabled` succeeds, then the agent
  -- shows the tunnels that the server holds afterwards, and every one of them has the wanted value. The
  -- agent has its configuration and token, and the server keeps the promises of `Service`.
  pub set_all_enabled_lem :
      (w : W) (enabled : Bool)
      → Ready w
      → Shows Holds w app.runtime.tunnels
      → (set_all_enabled http uuid_text no_entry app w enabled).0 ≡ ok tt
      → Shows Holds
          (set_all_enabled http uuid_text no_entry app w enabled).2
          (set_all_enabled http uuid_text no_entry app w enabled).1.runtime.tunnels
        × All
            (λ t. t.enabled ≡ enabled)
            (set_all_enabled http uuid_text no_entry app w enabled).1.runtime.tunnels
  unfolding Covers Shows
  set_all_enabled_lem w enabled ready shows h =
      let items = app.runtime.tunnels in
      let covers : Covers enabled items w = λ u held. elim (differs_lem enabled u) [
        | inl e ↦ inl e
        | inr d ↦ inr (u, shows.0 u held, refl, d)
      ] in
      elim (Result-cases (enable_each http uuid_text no_entry app enabled w items).0) [
        | inr (x, failed) ↦ absurd (cc (h, set_fails enabled w x failed))
        | inl (one, done) ↦
            let step = set_known enabled w done in
            let (ready', covered) = enable_each_lem enabled items w ready covers done in
            rw step (refresh_lem enabled _ ready' covered (rw step at h))
      ]
