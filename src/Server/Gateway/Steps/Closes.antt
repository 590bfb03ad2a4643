-- ===== src/Server/Gateway/Steps/Closes.antt =====
-- The steps of Gateway/Steps that close a connection of server/src/gateway.rs, route a frame or clean up.
use tunnelbridge.Prelude.{
  ℕ, ◌≡◌, Bool, true, List, [], ◌∷◌, arith, nat_eq, nat_beq_iff, Option-cases, inl, inr, ltb, ◌++◌,
}
use tunnelbridge.Prelude.Text.{Text}
use tunnelbridge.Prelude.Map.{
  get, contains_key, contains_key-insert, contains_key-remove, contains_key-retain,
  contains_key_of_get,
}
use tunnelbridge.Net.{IpAddr, IpNet, SocketAddr}
use tunnelbridge.Protocol.{Uuid, DateTime}
use tunnelbridge.Protocol.Frame.{UuidBytes, decode_carrier_frame}
use tunnelbridge.Server.State.{AppState}
use tunnelbridge.Server.Tunnels.Rows.{Columns}
use tunnelbridge.Server.Cleanup.{cleanup}
use tunnelbridge.Server.Gateway.Connection.{close_connection, close_virtual, route_carrier_frame}
use tunnelbridge.Server.Gateway.Steps.{stage_ok, id_ok}
use tunnelbridge.Server.Gateway.Steps.Follows.{Follows}

module _ (contains : IpNet → IpAddr → Bool) (hash_token : Text → Text)
    (print_addr : SocketAddr → Text) (columns : Columns) (uuid : UuidBytes)
    (before : Text → Text → Bool) where
  pub close_ok :
      (s : AppState) (id : Uuid) (closed_at : DateTime)
      → contains_key s.active id ≡ true
      → Follows s (close_connection columns s id closed_at)
  unfolding close_connection Follows id_ok stage_ok
  close_ok s id closed_at open_still j h = ground (
    arith,
    nat_beq_iff id j,
    contains_key-remove s.active id j,
    contains_key-remove s.streams id j,
  )

  pub close_web_ok :
      (s : AppState) (id : Uuid) → contains_key s.active id ≡ true → Follows s (close_virtual s id)
  unfolding close_virtual Follows id_ok stage_ok
  close_web_ok s id open_still j h = ground (
    arith,
    nat_beq_iff id j,
    contains_key-remove s.active id j,
    contains_key-remove s.streams id j,
  )

  pub frame_ok : (s : AppState) (bytes : List ℕ) → Follows s (route_carrier_frame uuid s bytes)
  unfolding route_carrier_frame Follows id_ok stage_ok
  frame_ok s bytes j h = elim (Option-cases (decode_carrier_frame uuid bytes)) [
    | inl e ↦ ground arith
    | inr (f, e) ↦ elim (Option-cases (get s.streams f.id)) [
      | inl none_there ↦ ground arith
      | inr (inbox, there) ↦ ground (
        arith,
        nat_beq_iff f.id j,
        contains_key_of_get s.streams f.id inbox there,
        contains_key-insert s.streams f.id j
            (inbox ++ record { kind = f.kind; payload = f.payload } ∷ []),
      )
    ]
  ]

  pub expire_ok : (s : AppState) (now : ℕ) (cutoff : Text) → Follows s (cleanup before s now cutoff)
  unfolding cleanup Follows id_ok stage_ok
  expire_ok s now cutoff j h =
      ground (arith, contains_key-retain (λ id pending. ltb now pending.expires_at) s.pending j)
