-- ===== src/Cluster/Upkeep/Shutdown.antt =====
-- After a shutdown no lookup leads to the server any more.
use jrok_rs.Base.{
  ℕ, ◌≡◌, ◌≢◌, refl, Bool, true, ◌&&◌, not, Option, none, some, String, List, [], ◌∷◌, arith,
  eq_iff, Option-cases, inl, inr,
}
use jrok_rs.Base.{◌=s◌}
use jrok_rs.Config.{Config}
use jrok_rs.Cluster.Upkeep.{shutdown}
use jrok_rs.Db.Agents.{AgentRow, newest_active, get_agent_server, unregister_all_agents}
use jrok_rs.Db.Servers.{Tables, mark_server_unhealthy}
use jrok_rs.Db.Statement.{answered}
use jrok_rs.Db.Statement.Rows.{AllRows, update_where-AllRows}
use jrok_rs.Error.{ok}

-- An active agent is on another server.
abbrev pub is_elsewhere : String → AgentRow → Bool
is_elsewhere id row = not (row.server_id =s id && row.active)

abbrev is_away : String → Option AgentRow → Bool
is_away id none = true
is_away id (some row) = not (row.server_id =s id)

newest_active-is_away :
    (id subdomain : String) (rows : List AgentRow)
    → AllRows (is_elsewhere id) rows
    → is_away id (newest_active subdomain rows) ≡ true
unfolding newest_active
newest_active-is_away id subdomain [] h = refl
newest_active-is_away id subdomain (row ∷ rows) h =
    elim (Option-cases (newest_active subdomain rows)) [
      | inl nobody ↦ ground (arith, h.0, newest_active-is_away id subdomain rows h.1)
      | inr (other, found) ↦ ground (arith, h.0, newest_active-is_away id subdomain rows h.1)
    ]

get_agent_server-away :
    (id subdomain : String) (rows : List AgentRow)
    → AllRows (is_elsewhere id) rows
    → get_agent_server answered subdomain rows ≢ ok (some id)
unfolding get_agent_server
get_agent_server-away id subdomain rows h = elim (Option-cases (newest_active subdomain rows)) [
  | inl nobody ↦ rw (nobody, get_agent_server) (λ eq. ground arith)
  | inr (row, found) ↦
      rw (found, get_agent_server)
        (λ eq.
          ground
            (arith, found, eq, eq_iff row.server_id id, newest_active-is_away id subdomain rows h))
]

-- A shutdown whose two statements are answered returns. Afterwards no lookup of a subdomain that is
-- answered leads to the server, whatever agents it had and on whatever other servers agents are, and
-- no row of the server says that it is healthy.
pub get_agent_server-shutdown :
    (config : Config) (now_ms : ℕ) (tables : Tables)
    → let (after, result) = shutdown config answered answered now_ms tables in
      (result ≡ ok tt)
      × ((subdomain : String)
          → get_agent_server answered subdomain after.agents ≢ ok (some config.server_id))
      × AllRows (λ row. not (row.id =s config.server_id && row.is_healthy)) after.servers
unfolding shutdown unregister_all_agents mark_server_unhealthy
get_agent_server-shutdown config now_ms tables = (
  refl,
  λ subdomain. get_agent_server-away config.server_id subdomain _ (
      update_where-AllRows (λ row. row.server_id =s config.server_id)
        (is_elsewhere config.server_id) _ tables.agents (λ row own. ground arith)
        (λ row other. ground arith)),
  update_where-AllRows (λ row. row.id =s config.server_id)
      (λ row. not (row.id =s config.server_id && row.is_healthy)) _ tables.servers
      (λ row own. ground arith) (λ row other. ground arith),
)
