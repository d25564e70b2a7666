-- ===== src/Cluster/Upkeep/Cleanup.antt =====
-- What a round of the cleanup loop leaves in the tables, although errors are only logged.
use jrok_rs.Base.{ℕ, ◌≡◌, not, String, List, [], ◌∷◌, arith, inl, inr}
use jrok_rs.Base.Int.{as_i64, sub_i64}
use jrok_rs.Agent.{AgentRegistry}
use jrok_rs.Agent.Stale.{stale_ids}
use jrok_rs.Cluster.Upkeep.{Ends, unregister_rows, registry_rows, cleanup_round}
use jrok_rs.Config.{Config}
use jrok_rs.Db.Agents.{AgentRow, unregister_agent, is_old, cleanup_stale_agents}
use jrok_rs.Db.Agents.Cleanup.{cleanup_stale_agents-AllRows}
use jrok_rs.Db.Servers.{Server, Tables, mark_servers_unhealthy}
use jrok_rs.Db.Servers.Health.{is_timely, is_served, mark_servers_unhealthy-AllRows}
use jrok_rs.Db.Statement.{Fate, answered, refused, lost}
use jrok_rs.Db.Statement.Rows.{AllRows, update_where-keeps, execute-holds}
use jrok_rs.Error.Cases.{Result-cases}

module _ (servers : List Server) where
  unregister_agent-served :
      (fate : Fate) (now_ms : ℕ) (id : String) (rows : List AgentRow)
      → AllRows (is_served servers) rows
      → AllRows (is_served servers) (unregister_agent fate now_ms id rows).0
  unfolding unregister_agent
  unregister_agent-served fate now_ms id rows served =
      execute-holds (AllRows (is_served servers)) fate _ rows served
        (update_where-keeps _ (is_served servers) _ rows (λ row h. ground arith) served)

  cleanup_stale_agents-served :
      (fate : Fate) (now_ms timeout_ms : ℕ) (id : String) (rows : List AgentRow)
      → AllRows (is_served servers) rows
      → AllRows (is_served servers) (cleanup_stale_agents fate now_ms timeout_ms id rows).0
  unfolding cleanup_stale_agents
  cleanup_stale_agents-served fate now_ms timeout_ms id rows served =
      execute-holds (AllRows (is_served servers)) fate _ rows served
        (update_where-keeps _ (is_served servers) _ rows (λ row h. ground arith) served)

  unregister_rows-served :
      (fates : String → Fate) (now_ms : ℕ) (ids : List String) (rows : List AgentRow)
      → AllRows (is_served servers) rows
      → AllRows (is_served servers) (unregister_rows fates now_ms ids rows).0
  unfolding unregister_rows
  unregister_rows-served fates now_ms [] rows served = served
  unregister_rows-served fates now_ms (id ∷ ids) rows served =
      let kept = unregister_agent-served (fates id) now_ms id rows served in
      elim (Result-cases (unregister_agent (fates id) now_ms id rows).1) [
        | inl (e, failed) ↦ rw (failed, unregister_rows) kept
        | inr (u, done) ↦
            rw (done, unregister_rows) (unregister_rows-served fates now_ms ids _ kept)
      ]

  registry_rows-served :
      (config : Config) (ends : Ends) (now_ms : ℕ) (ids : List String) (rows : List AgentRow)
      → AllRows (is_served servers) rows
      → AllRows (is_served servers) (registry_rows config ends now_ms ids rows)
  unfolding registry_rows
  registry_rows-served config ends now_ms ids rows served =
      let kept = unregister_rows-served ends.unregister now_ms ids rows served in
      elim (Result-cases (unregister_rows ends.unregister now_ms ids rows).1) [
        | inl (e, failed) ↦ rw (failed, registry_rows) kept
        | inr (u, done) ↦
            rw (done, registry_rows)
              (cleanup_stale_agents-served ends.registry_cleanup now_ms config.agent_timeout_ms
                config.server_id _ kept)
      ]

-- The two statements that mark servers, when they are answered.
marked :
    (first second : Fate) (now_ms timeout_ms : ℕ) (tables : Tables)
    → first ≡ answered
    → second ≡ answered
    → let after = (mark_servers_unhealthy first second now_ms timeout_ms tables).0 in
      AllRows (is_timely (sub_i64 (as_i64 now_ms) (as_i64 timeout_ms))) after.servers
      × AllRows (is_served after.servers) after.agents
marked answered answered now_ms timeout_ms tables h k =
    let (fine, timely, served, same, same') =
      mark_servers_unhealthy-AllRows now_ms timeout_ms tables in
    (timely, served)
marked answered (refused e) now_ms timeout_ms tables h k = ground arith
marked answered (lost e) now_ms timeout_ms tables h k = ground arith
marked (refused e) second now_ms timeout_ms tables h k = ground arith
marked (lost e) second now_ms timeout_ms tables h k = ground arith

-- The last statement, when it is answered.
cleaned :
    (fate : Fate) (now_ms timeout_ms : ℕ) (id : String) (rows : List AgentRow)
    → fate ≡ answered
    → AllRows
        (λ row. not (is_old (sub_i64 (as_i64 now_ms) (as_i64 timeout_ms)) id row))
        (cleanup_stale_agents fate now_ms timeout_ms id rows).0
cleaned answered now_ms timeout_ms id rows h =
    let (counted, fresh, same) = cleanup_stale_agents-AllRows now_ms timeout_ms id rows in fresh
cleaned (refused e) now_ms timeout_ms id rows h = ground arith
cleaned (lost e) now_ms timeout_ms id rows h = ground arith

-- If the two statements that mark servers and the last statement of a round of the cleanup loop are
-- answered, then after the round every healthy server is within the leader timeout, no active agent
-- is on a server that is marked as unhealthy, and every active agent of this server is within the
-- agent timeout: whatever agents the registry holds, and however the statements of its own cleanup
-- between them end.
pub cleanup_round-AllRows :
    (config : Config) (ends : Ends) (now_ms : ℕ) (registry : AgentRegistry) (tables : Tables)
    → ends.mark_servers ≡ answered
    → ends.mark_agents ≡ answered
    → ends.cleanup ≡ answered
    → let (registry', after) = cleanup_round config ends now_ms (registry, tables) in
      AllRows (is_timely (sub_i64 (as_i64 now_ms) (as_i64 config.leader_timeout_ms))) after.servers
      × AllRows (is_served after.servers) after.agents
      × AllRows
          (λ row. not (
            is_old (sub_i64 (as_i64 now_ms) (as_i64 config.agent_timeout_ms)) config.server_id row))
          after.agents
unfolding cleanup_round
cleanup_round-AllRows config ends now_ms registry tables marks drops cleans =
    let first =
      (mark_servers_unhealthy ends.mark_servers ends.mark_agents now_ms config.leader_timeout_ms
        tables).0 in
    let ids =
      stale_ids (sub_i64 (as_i64 now_ms) (as_i64 config.agent_timeout_ms)) registry.agents in
    let (timely, served) =
      marked ends.mark_servers ends.mark_agents now_ms config.leader_timeout_ms tables marks
        drops in
    (
      timely,
      cleanup_stale_agents-served first.servers ends.cleanup now_ms config.agent_timeout_ms
          config.server_id _
          (registry_rows-served first.servers config ends now_ms ids first.agents served),
      cleaned ends.cleanup now_ms config.agent_timeout_ms config.server_id _ cleans,
    )
