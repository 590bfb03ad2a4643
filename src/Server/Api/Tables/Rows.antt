-- ===== src/Server/Api/Tables/Rows.antt =====
-- The rows of devices and tunnels when a device of server/src/api.rs is created, revoked or deleted.
use tunnelbridge.Prelude.{
  ◌≡◌, refl, Bool, true, false, not, List, [], ◌∷◌, arith, any, All, filter, ◌==◌, Bool-cases, inl,
  inr,
}
use tunnelbridge.Prelude.Text.{Text, text_eq}
use tunnelbridge.Server.Db.{Db, DeviceRow, TunnelRow, row_check, clash, has_device}
use tunnelbridge.Server.Db.Valid.{IsValid, Distinct}
use tunnelbridge.Server.Devices.{set_revoked, delete_rows}
use tunnelbridge.Server.Tunnels.Rows.{Columns}
use tunnelbridge.Server.Api.Tables.{KeepsDevices}

-- A revoked device is still there.
any-set_revoked :
    (id id' : Text) (ds : List DeviceRow)
    → any (λ d. DeviceRow.id d == id') (set_revoked id ds) ≡ any (λ d. DeviceRow.id d == id') ds
unfolding any set_revoked
any-set_revoked id id' [] = refl
any-set_revoked id id' (d ∷ ds) = ground (arith, any-set_revoked id id' ds)

pub KeepsDevices-set_revoked :
    (db : Db) (id : Text) → KeepsDevices db (record db { devices = set_revoked id db.devices })
unfolding KeepsDevices has_device
KeepsDevices-set_revoked db id id' h = rw (any-set_revoked id id' db.devices) h

pub KeepsDevices-cons :
    (db : Db) (d : DeviceRow) → KeepsDevices db (record db { devices = d ∷ db.devices })
unfolding KeepsDevices has_device any
KeepsDevices-cons db d id h = ground (arith, h)

-- The rows that pass a test.
any-filter :
    (p q : TunnelRow → Bool) (rs : List TunnelRow) → any q rs ≡ false → any q (filter p rs) ≡ false
unfolding any filter
any-filter p q [] h = refl
any-filter p q (r ∷ rs) h = ground (arith, any-filter p q rs)

Distinct-filter :
    (p : TunnelRow → Bool) (rs : List TunnelRow) → Distinct rs → Distinct (filter p rs)
unfolding filter
Distinct-filter p [] h = tt
Distinct-filter p (r ∷ rs) h = ground (arith, any-filter p (clash r) rs, Distinct-filter p rs h.1)

All-filter :
    (p : TunnelRow → Bool) (P Q : TunnelRow → Type 0) (rs : List TunnelRow)
    → ((r : TunnelRow) → p r ≡ true → P r → Q r)
    → All P rs
    → All Q (filter p rs)
unfolding filter
All-filter p P Q [] f h = tt
All-filter p P Q (r ∷ rs) f h = elim (Bool-cases (p r)) [
  | inl e ↦ rw e (f r e h.0, All-filter p P Q rs f h.1)
  | inr e ↦ rw e (All-filter p P Q rs f h.1)
]

-- A device other than the deleted one is still there.
any-filter_devices :
    (id id' : Text) (ds : List DeviceRow)
    → (id' == id) ≡ false
    → any (λ d. DeviceRow.id d == id') ds ≡ true
    → any (λ d. DeviceRow.id d == id') (filter (λ d. not (DeviceRow.id d == id)) ds) ≡ true
unfolding any filter
any-filter_devices id id' [] other h = h
any-filter_devices id id' (d ∷ ds) other h = ground (
  arith,
  any-filter_devices id id' ds other,
  text_eq.beq_iff d.id id',
  text_eq.beq_iff d.id id,
  text_eq.beq_iff id' id,
)

module _ (columns : Columns) where
  -- After the tunnels of a device and the device are deleted, no tunnel is without its device.
  pub delete_rows-IsValid : (db : Db) (id : Text) → IsValid db → IsValid (delete_rows columns db id)
  unfolding delete_rows has_device
  delete_rows-IsValid db id v = record {
    distinct = Distinct-filter (λ t. not (t.agent_id == id)) db.tunnels v.distinct;
    checked =
        All-filter (λ t. not (t.agent_id == id)) (λ r. row_check r ≡ true) (λ r. row_check r ≡ true)
          db.tunnels (λ r e h. h) v.checked;
    owned =
        All-filter (λ t. not (t.agent_id == id)) (λ r. has_device db r.agent_id ≡ true)
          (λ r. has_device (delete_rows columns db id) r.agent_id ≡ true) db.tunnels
          (λ r e h. any-filter_devices id r.agent_id db.devices (ground arith) h) v.owned;
  }
