-- ===== src/Tests/Config.antt =====
-- Instances of the theorems on src/config.rs, on the cleanup and the shutdown of src/cluster/mod.rs
-- and on the hole puncher of src/relay/mod.rs.
use jrok_rs.Base.{
  ℕ, ◌*◌, ◌≤◌, ◌≡◌, ◌≢◌, refl, ◌↔◌, not, ◌&&◌, none, some, String, arith, if◌then◌else◌,
}
use jrok_rs.Base.{◌=s◌}
use jrok_rs.Base.Text.{parse_uint}
use jrok_rs.Base.Int.{as_i64, sub_i64}
use jrok_rs.Cluster.Upkeep.{Ends, shutdown, cleanup_round}
use jrok_rs.Cluster.Upkeep.Cleanup.{cleanup_round-AllRows}
use jrok_rs.Db.Servers.Health.{is_timely, is_served}
use jrok_rs.Cluster.Upkeep.Shutdown.{get_agent_server-shutdown}
use jrok_rs.Config.{Config, Env, from_env}
use jrok_rs.Config.Bounds.{Describes, from_env-Describes}
use jrok_rs.Db.Agents.{get_agent_server, is_old}
use jrok_rs.Db.Statement.{answered, refused, lost}
use jrok_rs.Db.Statement.Rows.{AllRows}
use jrok_rs.Error.{ok}
use jrok_rs.Exec.{returns}
use jrok_rs.Relay.Puncher
use jrok_rs.Relay.Puncher.{Socket, punch_hole}
use jrok_rs.Relay.Puncher.Halts.{RunsOn, zero_packets, punch_hole-returns}
use jrok_rs.Tests.Fixtures.{agent, registry_of, tables, strokes_syntax, public_addr, public_text}

-- The variables without a default, and one port.
abbrev pub env : Env
env name =
    if name =s "HTTP_PORT"
    then some "9090"
    else if name =s "HTTP_HOST"
    then some "h1.example"
    else if name =s "TCP_HOST"
    then some "t1.example"
    else if name =s "BASE_DOMAIN"
    then some "example"
    else if name =s "TURSO_URL"
    then some "libsql://db"
    else if name =s "TURSO_TOKEN"
    then some "secret"
    else none

abbrev pub config : Config
config = record {
  server_id = "server-1";
  http_host = "h1.example";
  http_port = 9090;
  tcp_host = "t1.example";
  tcp_port_start = 10000;
  tcp_port_end = 20000;
  base_domain = "example";
  turso_url = "libsql://db";
  turso_token = "secret";
  heartbeat_interval_ms = 5000;
  leader_timeout_ms = 15000;
  agent_timeout_ms = 30000;
}

pub env_runs : from_env env "server-1" ≡ returns config
unfolding from_env parse_uint
env_runs = refl

from_env-Describes_example :
    (from_env env "server-1" ≡ returns config) ↔ Describes env "server-1" config
from_env-Describes_example = from_env-Describes env "server-1" config

get_agent_server-shutdown_example :
    let (after, result) = shutdown config answered answered 60_000 tables in
    (result ≡ ok tt)
    × ((subdomain : String)
        → get_agent_server answered subdomain after.agents ≢ ok (some "server-1"))
    × AllRows (λ row. not (row.id =s "server-1" && row.is_healthy)) after.servers
get_agent_server-shutdown_example = get_agent_server-shutdown config 60_000 tables

-- A clock that runs on for 201 milliseconds from one test to the next.
abbrev socket : Socket
socket = record { bind = λ _. none; elapsed = λ round. some (201 * round) }

socket-RunsOn : RunsOn socket
socket-RunsOn round = omega arith

punch_hole-returns_example :
    (n : ℕ) × (punch_hole strokes_syntax Puncher.new socket 30 "0.0.0.0:7" public_text
      ≡ returns (zero_packets n public_addr))
    × (n ≤ 25)
unfolding strokes_syntax
punch_hole-returns_example =
    punch_hole-returns strokes_syntax socket 30 "0.0.0.0:7" public_text public_addr socket-RunsOn
      (omega arith) refl refl

abbrev ends : Ends
ends = record {
  mark_servers = answered;
  mark_agents = answered;
  unregister = λ id. refused "timeout";
  registry_cleanup = lost "timeout";
  cleanup = answered;
}

cleanup_round-AllRows_example :
    let (registry', after) = cleanup_round config ends 60_000 (registry_of agent, tables) in
    AllRows (is_timely (sub_i64 (as_i64 60_000) (as_i64 15_000))) after.servers
    × AllRows (is_served after.servers) after.agents
    × AllRows
        (λ row. not (is_old (sub_i64 (as_i64 60_000) (as_i64 30_000)) "server-1" row))
        after.agents
cleanup_round-AllRows_example =
    cleanup_round-AllRows config ends 60_000 (registry_of agent) tables refl refl refl
