-- ===== src/Examples/Tables.antt =====
-- The theorems on the table of tunnels, at values.
use tunnelbridge.Prelude.{arith, ◌≡◌, refl, true, some, List, [], ◌∷◌}
use tunnelbridge.Prelude.Text.{codes}
use tunnelbridge.Prelude.Result.{ok}
use tunnelbridge.Server.Db.{TunnelRow}
use tunnelbridge.Server.Db.Valid.{IsValid}
use tunnelbridge.Server.Db.Migrate.{TunnelV1Row, version1, version2, migrate_tunnels_v2}
use tunnelbridge.Server.Db.Migrate.Laws.{AreMigrated, migrate_lem}
use tunnelbridge.Server.Headers.{Headers}
use tunnelbridge.Server.Devices.{delete_device_permanently}
use tunnelbridge.Server.Api.Handlers.{agent_create_tunnel}
use tunnelbridge.Server.Api.Tables.Runs.{create_by_agent, delete_device_by_admin, start, after}
use tunnelbridge.Server.Api.Tables.Sound.{IsSound, Run-IsSound}
use tunnelbridge.Server.Listeners.{NewListener}
use tunnelbridge.Server.State.{AppState}
use tunnelbridge.Examples.Data.{columns, hash_token, parse_ip, uri_authority, state, db, request}

abbrev headers : Headers
headers = (codes "authorization", some (codes "Bearer secret")) ∷ []

abbrev ssh : TunnelV1Row
ssh = record {
  id = 100 ∷ [];
  agent_id = 7 ∷ [];
  name = codes "ssh";
  local_host = codes "127.0.0.1";
  local_port = 22;
  remote_port = 20000;
  access_mode = codes "public";
  allowed_cidrs = [];
  enabled = true;
  created_at = 1 ∷ [];
  updated_at = 1 ∷ [];
}

abbrev old_rows : List TunnelV1Row
old_rows = ssh ∷ record ssh { id = 101 ∷ []; remote_port = 20001 } ∷ []

migrate_example :
    (rows : List TunnelRow) × (migrate_tunnels_v2 db (version1 old_rows)
      ≡ (ok tt, version2 true rows))
    × AreMigrated old_rows rows
    × IsValid (record db { tunnels = rows })
    × (migrate_tunnels_v2 db (version2 true rows) ≡ (ok tt, version2 true rows))
unfolding tunnelbridge.Prelude.any tunnelbridge.Server.Db.Migrate.Laws.clash1
    tunnelbridge.Prelude.list_beq tunnelbridge.Server.Db.has_device
migrate_example = migrate_lem db old_rows (refl, (refl, tt)) (refl, (refl, tt))

sound : IsSound columns state.config state.db
sound = record {
  range = omega arith;
  small = omega arith;
  valid = record { distinct = tt; checked = tt; owned = tt };
  ruled = λ r i. absurd i;
}

abbrev listener : NewListener
listener = record { token = 3; bound = some true }

abbrev made : AppState
made = (agent_create_tunnel columns hash_token parse_ip state headers request 101 listener 9).1

Run-IsSound_example :
    IsSound columns
      (delete_device_permanently columns uri_authority made 5 headers 7 10).1.config
      (delete_device_permanently columns uri_authority made 5 headers 7 10).1.db
Run-IsSound_example =
    Run-IsSound columns parse_ip hash_token uri_authority
      (after (after start (create_by_agent headers request 101 listener 9 (omega arith)))
        (delete_device_by_admin 5 headers 7 10))
      sound
