-- ===== src/Db/Servers.antt =====
-- src/db/mod.rs and src/db/models.rs: the table servers, and the statements that decide which servers
-- are healthy and which agents are active.
pub mod Health
use jrok_rs.Base.{
  ℕ, Bool, true, false, ◌&&◌, not, Option, none, some, String, List, [], ◌∷◌, ◌++◌, if◌then◌else◌,
}
use jrok_rs.Base.{◌=s◌}
use jrok_rs.Base.Int.{ℤ, as_i64, sub_i64, ltb_ℤ}
use jrok_rs.Db.Agents.{AgentRow}
use jrok_rs.Db.Statement.{Fate, execute, query, update_where, find_where, is_some}
use jrok_rs.Error.{Result, ok, err}

-- A row, and the struct that is read from it. The column `is_healthy` is 0 or 1.
pub record Server : Type 0 where
  pub id : String
  pub http_host : String
  pub tcp_host : String
  pub started_at : ℤ
  pub last_heartbeat : ℤ
  pub is_healthy : Bool

-- What `Db::register_server` writes: a server that is known keeps its hosts and its start.
unfoldable pub write_server :
    (now_ms : ℕ) → (id http_host tcp_host : String) → List Server → List Server
unfolding find_where update_where as_i64
write_server now_ms id http_host tcp_host rows = elim (find_where (λ row. row.id =s id) rows) [
  | some _ ↦
      update_where (λ row. row.id =s id)
        (λ row. record row { last_heartbeat = as_i64 now_ms; is_healthy = true }) rows
  | none ↦
      rows
      ++ record {
        id = id;
        http_host = http_host;
        tcp_host = tcp_host;
        started_at = as_i64 now_ms;
        last_heartbeat = as_i64 now_ms;
        is_healthy = true;
      }
        ∷ []
]

-- `Db::register_server`
unfoldable pub register_server :
    Fate
    → (now_ms : ℕ) → (id http_host tcp_host : String) → List Server
    → List Server × Result (Unit {0})
unfolding write_server
register_server fate now_ms id http_host tcp_host =
    execute fate λ rows. (write_server now_ms id http_host tcp_host rows, ok tt)

-- `Db::send_heartbeat`
unfoldable pub send_heartbeat :
    Fate → (now_ms : ℕ) → String → List Server → List Server × Result (Unit {0})
unfolding update_where as_i64
send_heartbeat fate now_ms server_id = execute fate λ rows. (
  update_where (λ row. row.id =s server_id) (λ row. record row { last_heartbeat = as_i64 now_ms })
      rows,
  ok tt,
)

-- `Db::mark_server_unhealthy`
unfoldable pub mark_server_unhealthy : Fate → String → List Server → List Server × Result (Unit {0})
unfolding update_where
mark_server_unhealthy fate server_id = execute fate λ rows. (
  update_where (λ row. row.id =s server_id) (λ row. record row { is_healthy = false }) rows,
  ok tt,
)

-- `Db::get_server`
unfoldable pub get_server : Fate → String → List Server → Result (Option Server)
unfolding find_where
get_server fate server_id = query fate λ rows. ok (find_where (λ row. row.id =s server_id) rows)

-- The two tables that `mark_servers_unhealthy` writes.
pub record Tables : Type 0 where
  pub servers : List Server
  pub agents : List AgentRow

-- `last_heartbeat < cutoff AND is_healthy = 1`
abbrev pub is_late : ℤ → Server → Bool
is_late cutoff row = ltb_ℤ row.last_heartbeat cutoff && row.is_healthy

-- `id IN (SELECT id FROM servers WHERE is_healthy = 0)`
unfoldable pub is_unhealthy : List Server → String → Bool
unfolding find_where
is_unhealthy servers id = is_some (find_where (λ row. row.id =s id && not row.is_healthy) servers)

-- The first UPDATE of `mark_servers_unhealthy`.
unfoldable pub mark_late : ℤ → List Server → List Server
unfolding update_where
mark_late cutoff = update_where (is_late cutoff) (λ row. record row { is_healthy = false })

-- The second UPDATE of `mark_servers_unhealthy`.
unfoldable pub drop_agents : List Server → List AgentRow → List AgentRow
unfolding update_where is_unhealthy
drop_agents servers =
    update_where (λ row. is_unhealthy servers row.server_id && row.active)
      (λ row. record row { active = false })

-- What `?` does after a statement: the next one runs only if it has returned.
abbrev pub then_run {ℓ} :
    {T : Type ℓ} → T × Result (Unit {0}) → (T → T × Result (Unit {0})) → T × Result (Unit {0})
then_run (t, err e) f = (t, err e)
then_run (t, ok _) f = f t

-- `Db::mark_servers_unhealthy`, with the ends of its two statements.
unfoldable pub mark_servers_unhealthy :
    (first second : Fate) (now_ms timeout_ms : ℕ) → Tables → Tables × Result (Unit {0})
unfolding mark_late drop_agents as_i64 sub_i64
mark_servers_unhealthy first second now_ms timeout_ms tables =
    then_run
      (execute first
        (λ t. (
          record t { servers = mark_late (sub_i64 (as_i64 now_ms) (as_i64 timeout_ms)) t.servers },
          ok tt,
        ))
        tables)
      (execute second λ t. (record t { agents = drop_agents t.servers t.agents }, ok tt))
