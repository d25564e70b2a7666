-- ===== src/Db/Servers/Health.antt =====
-- What `mark_servers_unhealthy` leaves behind, and that heartbeats do not heal a server.
use jrok_rs.Base.{
  ℕ, get_elem?, ◌≡◌, refl, Bool, true, false, ◌&&◌, not, some, String, List, [], ◌∷◌, arith, eq_iff,
}
use jrok_rs.Base.Int.{ℤ, as_i64, sub_i64}
use jrok_rs.Db.Agents.{AgentRow}
use jrok_rs.Db.Servers.{
  Server, send_heartbeat, mark_server_unhealthy, Tables, is_late, is_unhealthy, mark_late,
  drop_agents, mark_servers_unhealthy,
}
use jrok_rs.Db.Statement.Rows.{AllRows, update_where-AllRows, update_where_else, execute-holds}
use jrok_rs.Db.Statement.{Fate, answered, refused, lost, update_where, find_where}
use jrok_rs.Error.{ok}

-- A server that is healthy has a heartbeat that is not before the cutoff.
abbrev pub is_timely : ℤ → Server → Bool
is_timely cutoff row = not (is_late cutoff row)

-- An agent that is active is not on a server that is known to be unhealthy.
abbrev pub is_served : List Server → AgentRow → Bool
is_served servers row = not (is_unhealthy servers row.server_id && row.active)

module _ (now_ms timeout_ms : ℕ) (tables : Tables) where
  -- With both statements answered, `mark_servers_unhealthy` returns. Afterwards every healthy server
  -- has a heartbeat that is not before the cutoff, and no active agent is on a server that is marked
  -- as unhealthy. The rows of the servers that were not late, and of the agents that were not active
  -- on such a server, are as before.
  pub mark_servers_unhealthy-AllRows :
      let cutoff = sub_i64 (as_i64 now_ms) (as_i64 timeout_ms) in
      let (after, result) = mark_servers_unhealthy answered answered now_ms timeout_ms tables in
      (result ≡ ok tt)
      × AllRows (is_timely cutoff) after.servers
      × AllRows (is_served after.servers) after.agents
      × ((i : ℕ) (row : Server)
          → get_elem? tables.servers i ≡ some row
          → is_late cutoff row ≡ false
          → get_elem? after.servers i ≡ some row)
      × ((i : ℕ) (row : AgentRow)
          → get_elem? tables.agents i ≡ some row
          → is_served after.servers row ≡ true
          → get_elem? after.agents i ≡ some row)
  unfolding mark_servers_unhealthy mark_late drop_agents
  mark_servers_unhealthy-AllRows = (
    refl,
    update_where-AllRows (is_late cutoff) (is_timely cutoff) mark tables.servers
        (λ row late. ground arith) (λ row late. ground arith),
    update_where-AllRows gone (is_served (mark_late cutoff tables.servers)) drop tables.agents
        (λ row h. ground arith) (λ row h. ground arith),
    update_where_else (is_late cutoff) mark tables.servers,
    λ i row at served. update_where_else gone drop tables.agents i row at (ground arith),
  )
    where
      cutoff : ℤ
      cutoff = sub_i64 (as_i64 now_ms) (as_i64 timeout_ms)

      mark : Server → Server
      mark row = record row { is_healthy = false }

      gone : AgentRow → Bool
      gone row = is_unhealthy (mark_late cutoff tables.servers) row.server_id && row.active

      drop : AgentRow → AgentRow
      drop row = record row { active = false }

-- A statement that a running cluster makes on the table servers.
pub data ServerStep : Type 0 where
  heartbeat : (fate : Fate) (now_ms : ℕ) (server_id : String) → ServerStep
  mark_late_ones : (first second : Fate) (now_ms timeout_ms : ℕ) → ServerStep
  mark_one : (fate : Fate) (server_id : String) → ServerStep

unfoldable pub server_step : ServerStep → Tables → Tables
unfolding send_heartbeat mark_servers_unhealthy mark_server_unhealthy
server_step (heartbeat fate now_ms server_id) t = record t {
  servers = (send_heartbeat fate now_ms server_id t.servers).0;
}
server_step (mark_late_ones first second now_ms timeout_ms) t =
    (mark_servers_unhealthy first second now_ms timeout_ms t).0
server_step (mark_one fate server_id) t = record t {
  servers = (mark_server_unhealthy fate server_id t.servers).0;
}

unfoldable pub server_steps : List ServerStep → Tables → Tables
unfolding server_step
server_steps [] t = t
server_steps (step ∷ steps) t = server_steps steps (server_step step t)

-- An UPDATE that keeps the ids and heals nobody.
update_where-is_unhealthy :
    (p : Server → Bool) (f : Server → Server) (rows : List Server) (id : String)
    → ((row : Server) → (f row).id ≡ row.id)
    → ((row : Server) → row.is_healthy ≡ false → (f row).is_healthy ≡ false)
    → is_unhealthy rows id ≡ true
    → is_unhealthy (update_where p f rows) id ≡ true
unfolding is_unhealthy update_where find_where
update_where-is_unhealthy p f [] id same sick h = h
update_where-is_unhealthy p f (row ∷ rows) id same sick h = ground (
  arith,
  same row,
  sick row,
  eq_iff row.id id,
  eq_iff (f row).id id,
  update_where-is_unhealthy p f rows id same sick,
)

server_step-is_unhealthy :
    (step : ServerStep) (t : Tables) (id : String)
    → is_unhealthy t.servers id ≡ true
    → is_unhealthy (server_step step t).servers id ≡ true
unfolding server_step send_heartbeat mark_server_unhealthy mark_servers_unhealthy mark_late
server_step-is_unhealthy (heartbeat fate now_ms server_id) t id h =
    execute-holds (λ rows. is_unhealthy rows id ≡ true) fate _ t.servers h
      (update_where-is_unhealthy _ _ t.servers id (λ row. refl) (λ row sick. sick) h)
server_step-is_unhealthy (mark_one fate server_id) t id h =
    execute-holds (λ rows. is_unhealthy rows id ≡ true) fate _ t.servers h
      (update_where-is_unhealthy _ _ t.servers id (λ row. refl) (λ row sick. refl) h)
server_step-is_unhealthy (mark_late_ones answered second now_ms timeout_ms) t id h =
    let marked : is_unhealthy (mark_late (sub_i64 (as_i64 now_ms) (as_i64 timeout_ms)) t.servers) id
        ≡ true =
      update_where-is_unhealthy _ _ t.servers id (λ row. refl) (λ row sick. refl) h in
    execute-holds (λ (u : Tables). is_unhealthy u.servers id ≡ true) second _ _ marked marked
server_step-is_unhealthy (mark_late_ones (refused e) second now_ms timeout_ms) t id h = h
server_step-is_unhealthy (mark_late_ones (lost e) second now_ms timeout_ms) t id h =
    update_where-is_unhealthy _ _ t.servers id (λ row. refl) (λ row sick. refl) h

-- A server with a row that is marked as unhealthy keeps such a row through any heartbeats, its own
-- included, and any markings of servers, however these statements end.
pub server_steps-is_unhealthy :
    (steps : List ServerStep) (t : Tables) (id : String)
    → is_unhealthy t.servers id ≡ true
    → is_unhealthy (server_steps steps t).servers id ≡ true
unfolding server_steps
server_steps-is_unhealthy [] t id h = h
server_steps-is_unhealthy (step ∷ steps) t id h =
    server_steps-is_unhealthy steps (server_step step t) id (server_step-is_unhealthy step t id h)
