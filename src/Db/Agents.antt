-- ===== src/Db/Agents.antt =====
-- src/db/mod.rs: the table agents.
pub mod Cleanup
use jrok_rs.Base.{
  ℕ, ◌+◌, ◌%◌, Bool, true, false, ◌&&◌, Option, none, some, String, List, [], ◌∷◌, ◌++◌, length,
  if◌then◌else◌,
}
use jrok_rs.Base.{◌=s◌}
use jrok_rs.Base.Int.{ℤ, as_i64, sub_i64, ltb_ℤ}
use jrok_rs.Db.{Protocol, protocol_of, show_protocol}
use jrok_rs.Db.Statement.{Fate, Driver, execute, query, update_where, find_where, text_column}
use jrok_rs.Error.{Result, ok, err, database}

-- A row. The flag `active` is 0 or 1.
pub record AgentRow : Type 0 where
  pub id : String
  pub subdomain : String
  pub server_id : String
  pub tunnel_id : Option String
  pub local_port : ℕ
  pub local_host : String
  pub protocol : String
  pub connection_token : String
  pub connected_at : ℤ
  pub last_heartbeat : ℤ
  pub active : Bool

pub record Agent : Type 0 where
  pub id : String
  pub subdomain : String
  pub server_id : String
  pub tunnel_id : Option String
  pub local_port : ℕ
  pub local_host : String
  pub protocol : Protocol
  pub connection_token : String
  pub connected_at : ℤ
  pub last_heartbeat : ℤ
  pub active : Bool

-- The columns of a row, in the order in which they are read: only `tunnel_id` can be NULL.
unfoldable pub read_agent : Driver → AgentRow → Result Agent
unfolding text_column protocol_of
read_agent driver row = elim (text_column driver row.tunnel_id) [
  | err e ↦ err e
  | ok tunnel_id ↦ ok (record {
    id = row.id;
    subdomain = row.subdomain;
    server_id = row.server_id;
    tunnel_id = some tunnel_id;
    local_port = row.local_port % 65536;
    local_host = row.local_host;
    protocol = protocol_of row.protocol;
    connection_token = row.connection_token;
    connected_at = row.connected_at;
    last_heartbeat = row.last_heartbeat;
    active = row.active;
  })
]

-- The row that comes first, of one row and what is selected of those behind it. Of rows with the
-- same time SQL may choose any; here it is the first in the table.
abbrev newer : AgentRow → Option AgentRow → Option AgentRow
newer row none = some row
newer row (some other) = if ltb_ℤ row.connected_at other.connected_at then some other else some row

-- SELECT … WHERE subdomain = ?1 AND active = 1 ORDER BY connected_at DESC LIMIT 1
unfoldable pub newest_active : String → List AgentRow → Option AgentRow
newest_active subdomain [] = none
newest_active subdomain (row ∷ rows) =
    let later = newest_active subdomain rows in
    if row.subdomain =s subdomain && row.active then newer row later else later

abbrev pub read_found : Driver → Option AgentRow → Result (Option Agent)
read_found driver none = ok none
read_found driver (some row) = elim (read_agent driver row) [ err e ↦ err e | ok a ↦ ok (some a) ]

abbrev pub server_of : Option AgentRow → Option String
server_of none = none
server_of (some row) = some row.server_id

-- `Db::get_agent_server`
unfoldable pub get_agent_server : Fate → String → List AgentRow → Result (Option String)
unfolding newest_active
get_agent_server fate subdomain = query fate λ rows. ok (server_of (newest_active subdomain rows))

-- `Db::get_agent_by_subdomain`
unfoldable pub get_agent_by_subdomain :
    Driver → Fate → String → List AgentRow → Result (Option Agent)
unfolding newest_active read_agent
get_agent_by_subdomain driver fate subdomain =
    query fate λ rows. read_found driver (newest_active subdomain rows)

-- `Db::get_agent_by_id`
unfoldable pub get_agent_by_id : Driver → Fate → String → List AgentRow → Result (Option Agent)
unfolding find_where read_agent
get_agent_by_id driver fate id =
    query fate λ rows. read_found driver (find_where (λ row. row.id =s id) rows)

-- The statement's new row: `tunnel_id` may be NULL, the port and the protocol are converted, both
-- time stamps are given, and the agent is active.
unfoldable pub new_row : (now_ms : ℕ) → Agent → AgentRow
unfolding as_i64 show_protocol
new_row now_ms agent = record {
  id = agent.id;
  subdomain = agent.subdomain;
  server_id = agent.server_id;
  tunnel_id = agent.tunnel_id;
  local_port = agent.local_port;
  local_host = agent.local_host;
  protocol = show_protocol agent.protocol;
  connection_token = agent.connection_token;
  connected_at = agent.connected_at;
  last_heartbeat = as_i64 now_ms;
  active = true;
}

-- DO UPDATE: everything but the id and the subdomain.
abbrev overwrite : AgentRow → AgentRow → AgentRow
overwrite new old = record new { id = old.id; subdomain = old.subdomain }

-- INSERT … ON CONFLICT(subdomain) DO UPDATE …, on a table that has or has not a UNIQUE constraint on
-- the column subdomain: SQLite refuses a conflict target that no constraint matches.
unfoldable pub upsert :
    Driver
    → (unique_subdomain : Bool) → AgentRow
    → List AgentRow
    → List AgentRow × Result (Unit {0})
unfolding find_where update_where
upsert driver false new rows = (rows, err (database driver.no_constraint))
upsert driver true new rows = elim (find_where (λ row. row.subdomain =s new.subdomain) rows) [
  | some _ ↦ (update_where (λ row. row.subdomain =s new.subdomain) (overwrite new) rows, ok tt)
  | none ↦ elim (find_where (λ row. row.id =s new.id) rows) [
    | some _ ↦ (rows, err (database driver.broken_constraint))
    | none ↦ (rows ++ new ∷ [], ok tt)
  ]
]

-- The CREATE TABLE of agents: the column subdomain is NOT NULL and no more.
abbrev pub unique_subdomain : Bool
unique_subdomain = false

-- `Db::register_agent`
unfoldable pub register_agent :
    Driver → Fate → (now_ms : ℕ) → Agent → List AgentRow → List AgentRow × Result (Unit {0})
unfolding upsert new_row
register_agent driver fate now_ms agent =
    execute fate (upsert driver unique_subdomain (new_row now_ms agent))

-- `Db::unregister_agent`
unfoldable pub unregister_agent :
    Fate → (now_ms : ℕ) → String → List AgentRow → List AgentRow × Result (Unit {0})
unfolding update_where as_i64
unregister_agent fate now_ms id = execute fate λ rows. (
  update_where (λ row. row.id =s id)
      (λ row. record row { active = false; last_heartbeat = as_i64 now_ms }) rows,
  ok tt,
)

-- `Db::unregister_all_agents`
unfoldable pub unregister_all_agents :
    Fate → (now_ms : ℕ) → String → List AgentRow → List AgentRow × Result (Unit {0})
unfolding update_where as_i64
unregister_all_agents fate now_ms server_id = execute fate λ rows. (
  update_where (λ row. row.server_id =s server_id)
      (λ row. record row { active = false; last_heartbeat = as_i64 now_ms }) rows,
  ok tt,
)

-- `Db::send_agent_heartbeat`
unfoldable pub send_agent_heartbeat :
    Fate → (now_ms : ℕ) → String → List AgentRow → List AgentRow × Result (Unit {0})
unfolding update_where as_i64
send_agent_heartbeat fate now_ms id = execute fate λ rows. (
  update_where (λ row. row.id =s id) (λ row. record row { last_heartbeat = as_i64 now_ms }) rows,
  ok tt,
)

abbrev pub is_old : ℤ → String → AgentRow → Bool
is_old cutoff server_id row =
    row.server_id =s server_id && ltb_ℤ row.last_heartbeat cutoff && row.active

-- How many rows a WHERE clause selects.
unfoldable pub count_where : (AgentRow → Bool) → List AgentRow → ℕ
count_where p [] = 0
count_where p (row ∷ rows) = (if p row then 1 else 0) + count_where p rows

-- `Db::cleanup_stale_agents`
unfoldable pub cleanup_stale_agents :
    Fate → (now_ms timeout_ms : ℕ) → String → List AgentRow → List AgentRow × Result ℕ
unfolding update_where count_where as_i64 sub_i64
cleanup_stale_agents fate now_ms timeout_ms server_id =
    let old = is_old (sub_i64 (as_i64 now_ms) (as_i64 timeout_ms)) server_id in
    execute fate λ rows.
      (update_where old (λ row. record row { active = false }) rows, ok (count_where old rows))
