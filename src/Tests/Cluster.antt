-- ===== src/Tests/Cluster.antt =====
-- Instances of the theorems on src/cluster/mod.rs.
use jrok_rs.Base.{ℕ, ◌≡◌, refl, true, false, none, some, List, [], ◌∷◌, arith, eq_iff}
use jrok_rs.Base.Int.{pos}
use jrok_rs.Cluster.{Config, Tick, ClusterState, answered, lost, heartbeat, run}
use jrok_rs.Cluster.Lease.{Held, run-Held}
use jrok_rs.Cluster.Flag.{Undisturbed, outcome, heartbeat-outcome}

abbrev config : Config
config = record { server_id = "server-1"; leader_timeout_ms = 20000 }

abbrev rival : Config
rival = record { server_id = "server-2"; leader_timeout_ms = 20000 }

-- What the migration inserts.
abbrev initial : ClusterState
initial = record { leader_id = none; leader_term = pos 0; last_heartbeat = pos 0 }

abbrev led : ClusterState
led = record { leader_id = some "server-1"; leader_term = pos 1; last_heartbeat = pos 100_000 }

-- A tick that reads the row and whose write is answered.
abbrev tick_at : ℕ → ClusterState → Tick
tick_at now_ms state = record {
  heartbeat_sent = true;
  now_ms = now_ms;
  state_read = some (some state);
  term_read = some (some state);
  write_reply = answered;
}

tick_at-Undisturbed : Undisturbed (tick_at 130_000 led) (some led)
tick_at-Undisturbed = record {
  sent = refl;
  sees = refl;
  sees_term = refl;
  answers = refl;
  clock = omega arith;
}

-- The leader renews; a rival that has read the row before there was a leader comes too late, twice.
abbrev ticks : List (Config × Tick)
ticks =
    (config, tick_at 101_000 led)
    ∷ (rival, tick_at 102_000 initial)
    ∷ (rival, record (tick_at 114_000 initial) { write_reply = lost; term_read = none })
    ∷ []

run-Held_example :
    Held "server-1" (pos 1) 100_000 (run ticks (record { row = some led; flags = [] })).row
run-Held_example =
    run-Held "server-1" (pos 1) 100_000 ticks (record { row = some led; flags = [] })
      (
        (omega arith, omega arith, omega arith),
        ((omega arith, omega arith, omega arith), ((omega arith, omega arith, omega arith), tt)),
      )
      (record {
        state = led;
        beat = 100_000;
        row_is = refl;
        leader_is = refl;
        term_is = refl;
        beat_is = refl;
        beat_fresh = omega arith;
      })

-- 30 seconds after the last heartbeat of its rival the server takes over.
heartbeat-outcome_example :
    heartbeat rival (tick_at 130_000 led) (some led) false ≡ outcome rival 130_000 led 100_000
heartbeat-outcome_example =
    heartbeat-outcome rival (tick_at 130_000 led) led 100_000 false tick_at-Undisturbed
      (ground (arith, eq_iff "server-1" "")) refl (omega arith) (omega arith) (omega arith)
