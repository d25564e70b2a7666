-- ===== src/Cluster/Upkeep.antt =====
-- src/cluster/mod.rs: the registration of the server, one round of the cleanup loop, and the shutdown,
-- over the tables of src/db/mod.rs and the registry.
pub mod Shutdown
pub mod Cleanup
use jrok_rs.Base.{ℕ, String, List, [], ◌∷◌}
use jrok_rs.Base.Int.{ℤ, as_i64, sub_i64}
use jrok_rs.Agent.{AgentRegistry}
use jrok_rs.Agent.Stale.{stale_ids, cleanup_stale}
use jrok_rs.Config.{Config}
use jrok_rs.Db.Agents
use jrok_rs.Db.Agents.{AgentRow}
use jrok_rs.Db.Servers
use jrok_rs.Db.Servers.{Tables, mark_servers_unhealthy, mark_server_unhealthy, then_run}
use jrok_rs.Db.Statement.{Fate}
use jrok_rs.Error.{Result, ok, err}

abbrev on_servers {ℓ} :
    {A : Type ℓ} → (List Servers.Server → List Servers.Server × A) → Tables → Tables × A
on_servers f t = let (rows, a) = f t.servers in (record t { servers = rows }, a)

abbrev on_agents {ℓ} : {A : Type ℓ} → (List AgentRow → List AgentRow × A) → Tables → Tables × A
on_agents f t = let (rows, a) = f t.agents in (record t { agents = rows }, a)

-- `Cluster::register_server`
unfoldable pub register_server : Config → Fate → (now_ms : ℕ) → Tables → Tables × Result (Unit {0})
unfolding Servers.register_server
register_server config fate now_ms =
    on_servers
      (Servers.register_server fate now_ms config.server_id config.http_host config.tcp_host)

-- `Cluster::shutdown`
unfoldable pub shutdown :
    Config → (first second : Fate) (now_ms : ℕ) → Tables → Tables × Result (Unit {0})
unfolding mark_server_unhealthy Agents.unregister_all_agents
shutdown config first second now_ms tables =
    then_run (on_servers (mark_server_unhealthy first config.server_id) tables)
      (on_agents (Agents.unregister_all_agents second now_ms config.server_id))

-- How the statements of one round end: the two of `mark_servers_unhealthy`, one for each agent that
-- is removed, the cleanup of the registry's own and the last one.
pub record Ends : Type 0 where
  pub mark_servers : Fate
  pub mark_agents : Fate
  pub unregister : String → Fate
  pub registry_cleanup : Fate
  pub cleanup : Fate

-- `Db::unregister_agent` for one id after the other, until one fails.
unfoldable pub unregister_rows :
    (String → Fate) → (now_ms : ℕ) → List String → List AgentRow → List AgentRow × Result (Unit {0})
unfolding Agents.unregister_agent
unregister_rows fates now_ms [] rows = (rows, ok tt)
unregister_rows fates now_ms (id ∷ ids) rows =
    let (rows', result) = Agents.unregister_agent (fates id) now_ms id rows in
    let rest = unregister_rows fates now_ms ids rows' in
    elim result [ err e ↦ (rows', err e) | ok _ ↦ rest ]

abbrev ignore_count : Result ℕ → Result (Unit {0})
ignore_count (err e) = err e
ignore_count (ok n) = ok tt

-- What the cleanup of the registry does to the table.
unfoldable pub registry_rows :
    Config → Ends → (now_ms : ℕ) → List String → List AgentRow → List AgentRow
unfolding unregister_rows Agents.cleanup_stale_agents
registry_rows config ends now_ms ids rows =
    let (rows', result) = unregister_rows ends.unregister now_ms ids rows in
    elim result [
      | err e ↦ rows'
      | ok _ ↦
          (Agents.cleanup_stale_agents ends.registry_cleanup now_ms config.agent_timeout_ms
            config.server_id rows').0
    ]

-- One round of `cleanup_loop`, with one reading of the clock: an error is only logged, and the next
-- statement follows.
unfoldable pub cleanup_round :
    Config → Ends → (now_ms : ℕ) → AgentRegistry × Tables → AgentRegistry × Tables
unfolding mark_servers_unhealthy stale_ids cleanup_stale registry_rows Agents.unregister_agent
    Agents.cleanup_stale_agents as_i64 sub_i64
cleanup_round config ends now_ms (registry, tables) =
    let timeout = as_i64 config.agent_timeout_ms in
    let marked =
      (mark_servers_unhealthy ends.mark_servers ends.mark_agents now_ms config.leader_timeout_ms
        tables).0 in
    let ids = stale_ids (sub_i64 (as_i64 now_ms) timeout) registry.agents in
    let registry' =
      (cleanup_stale
        (λ id. (Agents.unregister_agent (ends.unregister id) now_ms id marked.agents).1)
        (ignore_count
          (Agents.cleanup_stale_agents ends.registry_cleanup now_ms config.agent_timeout_ms
            config.server_id marked.agents).1)
        now_ms timeout registry).0 in
    let rows = registry_rows config ends now_ms ids marked.agents in
    let rows' =
      (Agents.cleanup_stale_agents ends.cleanup now_ms config.agent_timeout_ms config.server_id
        rows).0 in
    (registry', record marked { agents = rows' })
