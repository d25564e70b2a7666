-- ===== src/Tests/Agent.antt =====
-- Instances of the theorems on src/agent/registry.rs.
use jrok_rs.Base.{ℕ, ◌≡◌, Option, none, some, String, List, [], ◌∷◌}
use jrok_rs.Base.Map.{get}
use jrok_rs.Base.Int.{pos}
use jrok_rs.Agent.Stale.{cleanup_stale}
use jrok_rs.Agent.Stale.Beats.{fine, beats, cleanup_stale-update_heartbeat}
use jrok_rs.Base.{refl, arith}
use jrok_rs.Error.{ok}
use jrok_rs.Tests.Fixtures.{agent, registry_of}

-- A decoder that knows one text.
abbrev decode : String → Option (List ℕ)
decode String.[] = none
decode (String.◌∷◌ c s) = some (104 ∷ 105 ∷ [])

-- The agent was registered at 500 and sends two heartbeats, then the cleanup removes it.
cleanup_stale-update_heartbeat_example :
    let after =
      cleanup_stale fine
        (ok tt)
        31_000
        (pos 30_000)
        (beats (("agent-1", ok tt) ∷ ("agent-1", ok tt) ∷ []) (registry_of agent)) in
    (after.1 ≡ ok tt) × (get "agent-1" after.0.agents ≡ none)
unfolding get
cleanup_stale-update_heartbeat_example =
    cleanup_stale-update_heartbeat 31_000 30_000 500 "agent-1" agent (registry_of agent)
      (("agent-1", ok tt) ∷ ("agent-1", ok tt) ∷ []) (refl, tt) (omega arith) (omega arith) refl
      refl
