-- ===== src/Server/Db/Bootstrap.antt =====
-- server/src/db.rs: `bootstrap_admin`. Argon2 with a new salt is a parameter.
use tunnelbridge.Prelude.{Option, none, some, [], ◌∷◌, ltb, if◌then◌else◌}
use tunnelbridge.Prelude.Text.{Text, codes, utf8_len}
use tunnelbridge.Prelude.Result.{Result, ok, err}
use tunnelbridge.Server.Db.{Db}

pub data BootstrapError : Type 0 where
  missing_password short_password hash_failed : BootstrapError

-- The administrator's row, once there is none.
first_admin : (Text → Option Text) → Db → Text → Result BootstrapError Db
first_admin hash_password db password =
    if ltb (utf8_len password) 12 then err short_password else elim (hash_password password) [
      | none ↦ err hash_failed
      | some hash ↦
          ok (record db { admins = record { username = codes "admin"; password_hash = hash } ∷ [] })
    ]

pub bootstrap_admin : (Text → Option Text) → Db → Option Text → Result BootstrapError Db
unfolding first_admin
bootstrap_admin hash_password db password = elim db.admins [
  | row ∷ rows ↦ ok db
  | [] ↦ elim password [ none ↦ err missing_password | some p ↦ first_admin hash_password db p ]
]
