-- ===== src/Examples/Reconnect.antt =====
-- The theorems on the desktop agent's runs and on the tables, at values.
use tunnelbridge.Prelude.{refl, ◌≤◌, ◌+◌, ◌*◌, ◌^◌, min, false, some, [], ◌∷◌, arith}
use tunnelbridge.Prelude.Text.{codes}
use tunnelbridge.Prelude.Result.{ok}
use tunnelbridge.Agent.Runtime.{RuntimeState, new}
use tunnelbridge.Agent.Reconnect.{Turn, Carriers, closed, failed, run_reconnecting}
use tunnelbridge.Agent.Reconnect.Delays.{run_reconnecting_lem}
use tunnelbridge.Examples.Commands.{agent_config}

abbrev carriers : Carriers
carriers = record {
  quic = λ s. (closed, s);
  kcp = λ s. (failed (codes "gone"), s);
  wss = λ s. (closed, s);
}

abbrev turn : Turn
turn = record {
  now = 5;
  cancelled_before = false;
  token = ok (codes "secret");
  carriers = carriers;
  cancelled_after_quic = false;
  cancelled_after = false;
  jitter = 500;
  cancelled_asleep = false;
}

abbrev runtime : RuntimeState
runtime = record new { config = some agent_config }

run_reconnecting_example :
    (min (2 ^ (2 + 1)) 60 * 1000 ≤ 8500) × (8500 ≤ min (2 ^ (2 + 1)) 60 * 1000 + 1000)
unfolding run_reconnecting
run_reconnecting_example =
    run_reconnecting_lem runtime (turn ∷ turn ∷ turn ∷ []) 2 8500 (omega arith) refl
