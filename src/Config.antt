-- ===== src/Config.antt =====
-- src/config.rs: the settings, read from the environment.
pub mod Bounds
use jrok_rs.Base.{ℕ, ◌^◌, Option, none, some, String}
use jrok_rs.Base.Text.{parse_uint}
use jrok_rs.Exec.{Exec, returns, fails, panics, out_of_fuel, ◌>>=◌}

pub record Config : Type 0 where
  pub server_id : String
  pub http_host : String
  pub http_port : ℕ
  pub tcp_host : String
  pub tcp_port_start : ℕ
  pub tcp_port_end : ℕ
  pub base_domain : String
  pub turso_url : String
  pub turso_token : String
  pub heartbeat_interval_ms : ℕ
  pub leader_timeout_ms : ℕ
  pub agent_timeout_ms : ℕ

-- `env::var`: none for a variable that is not set or not Unicode.
abbrev pub Env : Type 0
Env = String → Option String

abbrev pub unwrap_or : String → Option String → String
unwrap_or default none = default
unwrap_or default (some s) = s

-- `expect`
abbrev pub expect {ℓ} : {A : Type ℓ} → Option A → Exec A
expect none = panics
expect (some a) = returns a

-- A variable that is parsed as an unsigned integer below the limit.
unfoldable pub number : Env → (limit : ℕ) (name default : String) → Exec ℕ
unfolding parse_uint
number env limit name default = expect (parse_uint limit (unwrap_or default (env name)))

-- `Config::from_env`, with the random id that stands in for a missing one.
unfoldable pub from_env : Env → (random_id : String) → Exec Config
unfolding number
from_env env random_id = do
  http_host ← expect (env "HTTP_HOST")
  http_port ← number env 65536 "HTTP_PORT" "8080"
  tcp_host ← expect (env "TCP_HOST")
  tcp_port_start ← number env 65536 "TCP_PORT_START" "10000"
  tcp_port_end ← number env 65536 "TCP_PORT_END" "20000"
  base_domain ← expect (env "BASE_DOMAIN")
  turso_url ← expect (env "TURSO_URL")
  turso_token ← expect (env "TURSO_TOKEN")
  heartbeat_interval_ms ← number env (2 ^ 64) "HEARTBEAT_INTERVAL_MS" "5000"
  leader_timeout_ms ← number env (2 ^ 64) "LEADER_TIMEOUT_MS" "15000"
  agent_timeout_ms ← number env (2 ^ 64) "AGENT_TIMEOUT_MS" "30000"
  returns (record {
    server_id = unwrap_or random_id (env "SERVER_ID");
    http_host = http_host;
    http_port = http_port;
    tcp_host = tcp_host;
    tcp_port_start = tcp_port_start;
    tcp_port_end = tcp_port_end;
    base_domain = base_domain;
    turso_url = turso_url;
    turso_token = turso_token;
    heartbeat_interval_ms = heartbeat_interval_ms;
    leader_timeout_ms = leader_timeout_ms;
    agent_timeout_ms = agent_timeout_ms;
  })

-- `tcp_port_range`: the ports from the first on, and below the second.
unfoldable pub tcp_port_range : Config → ℕ × ℕ
tcp_port_range config = (config.tcp_port_start, config.tcp_port_end)
