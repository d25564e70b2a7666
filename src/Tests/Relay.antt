-- ===== src/Tests/Relay.antt =====
-- A run of src/relay/mod.rs.
use jrok_rs.Base.{refl, ◌≡◌, true, false, List, [], ◌∷◌}
use jrok_rs.Base.Int.{pos}
use jrok_rs.Relay.{new_tracker}
use jrok_rs.Relay.Counters.{Call, tracks, succeeds, fails, cleans, run}

abbrev calls : List Call
calls =
    tracks "s1" "ssh" "10.0.0.5:7" "agent-1" true 1000
    ∷ succeeds "s1" 12 true 1012
    ∷ succeeds "s2" 3 false 1015
    ∷ fails "s1" true 2000
    ∷ cleans 3000 (pos 500)
    ∷ []

-- Only the connection that was tracked before its report is counted as direct.
counters_run :
    let t = run calls new_tracker in
    (t.total_attempts ≡ 1) × (t.direct_successes ≡ 1) × (t.relay_used ≡ 1)
unfolding run new_tracker
counters_run = (refl, refl, refl)
