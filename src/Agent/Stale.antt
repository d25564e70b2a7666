-- ===== src/Agent/Stale.antt =====
-- src/agent/registry.rs: heartbeats and the cleanup of stale agents.
pub mod Beats
use jrok_rs.Base.{ℕ, Bool, true, false, Option, none, some, String, List, [], ◌∷◌, if◌then◌else◌}
use jrok_rs.Base.Int.{ℤ, as_i64, sub_i64, ltb_ℤ}
use jrok_rs.Base.Map.{StrMap}
use jrok_rs.Agent.{AgentRegistry, AgentState}
use jrok_rs.Agent.Register.{unregister}
use jrok_rs.Error.{Result, ok, err}

-- `update_heartbeat`: the database's answer is the result; the state in memory is looked up and left.
unfoldable pub update_heartbeat :
    Result (Unit {0}) → String → AgentRegistry → AgentRegistry × Result (Unit {0})
update_heartbeat answer agent_id registry = (registry, answer)

-- `state.last_heartbeat < cutoff`
abbrev pub is_stale : ℤ → AgentState → Bool
is_stale cutoff agent = ltb_ℤ agent.last_heartbeat cutoff

unfoldable pub stale_ids : ℤ → StrMap AgentState → List String
stale_ids cutoff [] = []
stale_ids cutoff ((id, agent) ∷ rest) =
    let others = stale_ids cutoff rest in if is_stale cutoff agent then id ∷ others else others

-- The `for id in stale` loop, which ends at the first error.
unfoldable pub unregister_each :
    (String → Result (Unit {0})) → List String → AgentRegistry → AgentRegistry × Result (Unit {0})
unfolding unregister
unregister_each answers [] registry = (registry, ok tt)
unregister_each answers (id ∷ ids) registry =
    let (registry', result) = unregister (answers id) id registry in
    let rest = unregister_each answers ids registry' in
    elim result [ err e ↦ (registry', err e) | ok _ ↦ rest ]

-- The database answers each removal, and in the end its own cleanup.
unfoldable pub cleanup_stale :
    (String → Result (Unit {0}))
    → Result (Unit {0})
    → (now_ms : ℕ) → (timeout_ms : ℤ) → AgentRegistry
    → AgentRegistry × Result (Unit {0})
unfolding stale_ids unregister_each as_i64 sub_i64
cleanup_stale answers final now_ms timeout_ms registry =
    let cutoff = sub_i64 (as_i64 now_ms) timeout_ms in
    let (registry', result) = unregister_each answers (stale_ids cutoff registry.agents) registry in
    elim result [ err e ↦ (registry', err e) | ok _ ↦ (registry', final) ]
