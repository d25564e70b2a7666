-- ===== src/Tests/Db.antt =====
-- Instances of the theorems on the tables of src/db/mod.rs, and on src/api/keys.rs over them.
use jrok_rs.Base.{
  ℕ, zero, ◌≤◌, ◌<◌, ◌≡◌, ◌≢◌, ◌⊎◌, refl, false, true, none, some, String, List, [], ◌∷◌, arith,
}
use jrok_rs.Base.Int.{pos}
use jrok_rs.Agent.Remote.{get_agent_server, get_agent_server-Agents}
use jrok_rs.Api.{ApiKeyResponse, create_api_key, validate_api_key_direct, delete_api_key}
use jrok_rs.Api.Lifetime.{validate_api_key_direct-create_api_key}
use jrok_rs.Db.{tcp}
use jrok_rs.Db.Agents
use jrok_rs.Db.Agents.{newest_active, AgentRow, count_where, cleanup_stale_agents, is_old}
use jrok_rs.Db.Keys.{validate_api_key}
use jrok_rs.Db.Keys.Issued.{
  KeyStep, create, delete, key_steps, spec_steps, is_issued, validate_api_key-key_steps,
}
use jrok_rs.Db.Keys.Lasting.{withdraws, reissues}
use jrok_rs.Db.Ports.{TcpPort, holder, allocate_tcp_port}
use jrok_rs.Db.Ports.Allocation.{allocate_tcp_port_safe, allocate_tcp_port-some}
use jrok_rs.Db.Servers.{Tables, is_unhealthy}
use jrok_rs.Db.Servers.Health.{
  ServerStep, heartbeat, mark_late_ones, server_steps, server_steps-is_unhealthy,
}
use jrok_rs.Db.Statement.{Fate, answered, lost, find_where}
use jrok_rs.Db.Tunnels.{Tunnel, create_tunnel, get_tunnel_by_subdomain}
use jrok_rs.Db.Tunnels.RoundTrip.{Serves, get_tunnel_by_subdomain-create_tunnel}
use jrok_rs.Error.{ok, err, database}
use jrok_rs.Tests.Fixtures.{driver, tables, server_row}

abbrev held : List TcpPort
held = record { port = 10000; tunnel_id = "t1"; server_id = "server-1" } ∷ []

-- The answer for the second port is lost.
abbrev fates : ℕ → Fate
fates zero = lost "timeout"
fates _ = answered

allocate_tcp_port_safe_example :
    let (after, result) = allocate_tcp_port driver fates "t2" "server-1" 10000 10003 held in
    ((q : ℕ) (row : TcpPort) → holder q held ≡ some row → holder q after ≡ some row)
    × ((q : ℕ) → (q < 10000) ⊎ (10003 ≤ q) → holder q after ≡ holder q held)
    × ((row : TcpPort)
        → result ≡ ok (some row)
        → (row.tunnel_id ≡ "t2")
          × (row.server_id ≡ "server-1")
          × (10000 ≤ row.port)
          × (row.port < 10003)
          × (holder row.port held ≡ none)
          × (holder row.port after ≡ some row))
allocate_tcp_port_safe_example =
    allocate_tcp_port_safe driver fates "t2" "server-1" 10000 10003 held

allocate_tcp_port-some_example :
    (row : TcpPort) × ((allocate_tcp_port driver fates "t2" "server-1" 10000 10003 held).1
      ≡ ok (some row))
    × (row.port ≤ 10001)
unfolding holder
allocate_tcp_port-some_example =
    allocate_tcp_port-some driver fates "t2" "server-1" 10000 10003 held 10001 (omega arith)
      (omega arith) refl refl

-- A code that keeps the text as it is.
abbrev mac : String → String → String
mac key message = message

abbrev key_history : List KeyStep
key_history =
    create answered 1000 "k1" "jrok_a" (some "ci")
    ∷ create (lost "timeout") 1001 "k2" "jrok_b" none
    ∷ create answered 1002 "k2" "jrok_c" none
    ∷ delete answered "k1"
    ∷ []

validate_api_key-key_steps_example :
    validate_api_key mac answered "jrok_b" (key_steps mac driver key_history [])
    ≡ ok (is_issued mac "jrok_b" (spec_steps mac key_history []))
validate_api_key-key_steps_example = validate_api_key-key_steps mac driver key_history "jrok_b"

-- Another key is made and deleted while the key is valid, and once more afterwards.
abbrev others : List KeyStep
others = create answered 1000 "k2" "jrok_b" none ∷ delete (lost "timeout") "k2" ∷ []

validate_api_key_direct-create_api_key_example :
    let (after, result) = create_api_key mac driver answered 1000 "k1" "a" "ci" [] in
    let check = validate_api_key_direct mac answered (some "jrok_a") in
    let used = key_steps mac driver others after in
    let deleted = (delete_api_key answered "k1" used).0 in
    ((response : ApiKeyResponse) × (result ≡ ok response)
      × (response.key ≡ "jrok_a")
      × (response.id ≡ "k1"))
    × (check [] ≡ ok false)
    × (check used ≡ ok true)
    × (check (key_steps mac driver others deleted) ≡ ok false)
unfolding find_where withdraws reissues
validate_api_key_direct-create_api_key_example =
    validate_api_key_direct-create_api_key mac driver 1000 "k1" "a" "ci" [] refl others others refl
      refl

-- A server that has been marked sends two heartbeats.
abbrev marked : Tables
marked = record tables { servers = record server_row { is_healthy = false } ∷ [] }

abbrev beats : List ServerStep
beats =
    heartbeat answered 60_000 "server-1"
    ∷ mark_late_ones answered (lost "timeout") 61_000 15_000
    ∷ heartbeat answered 65_000 "server-1"
    ∷ []

server_steps-is_unhealthy_example :
    is_unhealthy (server_steps beats marked).servers "server-1" ≡ true
unfolding is_unhealthy
server_steps-is_unhealthy_example = server_steps-is_unhealthy beats marked "server-1" refl

abbrev tunnel : Tunnel
tunnel = record {
  id = "t1";
  subdomain = "ssh";
  protocol = tcp;
  tcp_port = some 10000;
  api_key_id = none;
  created_at = pos 0;
  updated_at = pos 0;
  active = false;
}

get_tunnel_by_subdomain-create_tunnel_example :
    let (after, result) = create_tunnel driver answered 1000 tunnel [] in
    ((t : Tunnel) × (result ≡ ok tt)
      × (get_tunnel_by_subdomain answered "ssh" after ≡ ok (some t))
      × Serves tunnel t)
    × ((other : String)
        → "ssh" ≢ other
        → get_tunnel_by_subdomain answered other after ≡ get_tunnel_by_subdomain answered other [])
unfolding find_where
get_tunnel_by_subdomain-create_tunnel_example =
    get_tunnel_by_subdomain-create_tunnel tunnel (omega arith) driver 1000 [] refl

-- The agent of the fixture has no tunnel.
get_agent_server-Agents_example :
    (get_agent_server driver answered "ssh" tables.agents
      ≡ Agents.get_agent_server answered "ssh" tables.agents)
    ⊎ ((row : AgentRow) × (newest_active "ssh" tables.agents ≡ some row)
        × (row.tunnel_id ≡ none)
        × (get_agent_server driver answered "ssh" tables.agents ≡ err (database driver.null_value)))
get_agent_server-Agents_example = get_agent_server-Agents driver "ssh" tables.agents
