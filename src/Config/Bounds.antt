-- ===== src/Config/Bounds.antt =====
-- What the settings are, variable by variable, and that they fit their machine types.
use jrok_rs.Base.{ℕ, ◌^◌, ◌<◌, ◌≡◌, refl, sym, ap, ◌↔◌, Option, none, some, String, [], ◌∷◌, arith}
use jrok_rs.Base.Map.{get}
use jrok_rs.Base.Text.{parse_uint, parse_uint-lt, show_ℕ}
use jrok_rs.Exec.{returns}
use jrok_rs.Exec.Laws.{returned, Returns, >>=-Returns}
use jrok_rs.Config.{Config, Env, unwrap_or, expect, number, from_env}

-- The variable, or the default in its place, is the number, which is below the limit.
abbrev pub IsNumber : Env → (limit : ℕ) (name default : String) → ℕ → Type 0
IsNumber env limit name default n =
    (parse_uint limit (unwrap_or default (env name)) ≡ some n) × (n < limit)

-- Each setting is what its own variable says. Ports are 16-bit, times are 64-bit.
pub record Describes (env : Env) (random_id : String) (config : Config) : Type 0 where
  pub server_id : config.server_id ≡ unwrap_or random_id (env "SERVER_ID")
  pub http_host : env "HTTP_HOST" ≡ some config.http_host
  pub http_port : IsNumber env 65536 "HTTP_PORT" "8080" config.http_port
  pub tcp_host : env "TCP_HOST" ≡ some config.tcp_host
  pub tcp_port_start : IsNumber env 65536 "TCP_PORT_START" "10000" config.tcp_port_start
  pub tcp_port_end : IsNumber env 65536 "TCP_PORT_END" "20000" config.tcp_port_end
  pub base_domain : env "BASE_DOMAIN" ≡ some config.base_domain
  pub turso_url : env "TURSO_URL" ≡ some config.turso_url
  pub turso_token : env "TURSO_TOKEN" ≡ some config.turso_token
  pub heartbeat_interval_ms :
      IsNumber env (2 ^ 64) "HEARTBEAT_INTERVAL_MS" "5000" config.heartbeat_interval_ms
  pub leader_timeout_ms : IsNumber env (2 ^ 64) "LEADER_TIMEOUT_MS" "15000" config.leader_timeout_ms
  pub agent_timeout_ms : IsNumber env (2 ^ 64) "AGENT_TIMEOUT_MS" "30000" config.agent_timeout_ms

expect-some {ℓ} : {A : Type ℓ} (o : Option A) (a : A) → expect o ≡ returns a → o ≡ some a
expect-some none a h = ground arith
expect-some (some b) a h = ap returned h

number-IsNumber :
    (env : Env) (limit n : ℕ) (name default : String)
    → 0 < limit
    → number env limit name default ≡ returns n
    → IsNumber env limit name default n
unfolding number
number-IsNumber env limit n name default low read =
    let parsed = expect-some _ n read in
    (parsed, parse_uint-lt limit n (unwrap_or default (env name)) low parsed)

from_env-Returns :
    (env : Env) (random_id : String) → Returns (Describes env random_id) (from_env env random_id)
unfolding from_env
from_env-Returns env random_id = >>=-Returns _ _ _ λ http_host h1. >>=-Returns _ _ _ λ http_port h2.
    >>=-Returns _ _ _ λ tcp_host h3. >>=-Returns _ _ _ λ first h4. >>=-Returns _ _ _ λ last h5.
      >>=-Returns _ _ _ λ domain h6. >>=-Returns _ _ _ λ url h7. >>=-Returns _ _ _ λ token h8.
        >>=-Returns _ _ _ λ heartbeat h9. >>=-Returns _ _ _ λ leader h10.
          >>=-Returns _ _ _ λ agent h11.
            let config : Config = record {
              server_id = unwrap_or random_id (env "SERVER_ID");
              http_host = http_host;
              http_port = http_port;
              tcp_host = tcp_host;
              tcp_port_start = first;
              tcp_port_end = last;
              base_domain = domain;
              turso_url = url;
              turso_token = token;
              heartbeat_interval_ms = heartbeat;
              leader_timeout_ms = leader;
              agent_timeout_ms = agent;
            } in
            let described : Describes env random_id config = record {
              server_id = refl;
              http_host = expect-some (env "HTTP_HOST") http_host h1;
              http_port = number-IsNumber env 65536 http_port "HTTP_PORT" "8080" (omega arith) h2;
              tcp_host = expect-some (env "TCP_HOST") tcp_host h3;
              tcp_port_start =
                  number-IsNumber env 65536 first "TCP_PORT_START" "10000" (omega arith) h4;
              tcp_port_end = number-IsNumber env 65536 last "TCP_PORT_END" "20000" (omega arith) h5;
              base_domain = expect-some (env "BASE_DOMAIN") domain h6;
              turso_url = expect-some (env "TURSO_URL") url h7;
              turso_token = expect-some (env "TURSO_TOKEN") token h8;
              heartbeat_interval_ms =
                  number-IsNumber env (2 ^ 64) heartbeat "HEARTBEAT_INTERVAL_MS" "5000"
                    (omega arith) h9;
              leader_timeout_ms =
                  number-IsNumber env (2 ^ 64) leader "LEADER_TIMEOUT_MS" "15000" (omega arith) h10;
              agent_timeout_ms =
                  number-IsNumber env (2 ^ 64) agent "AGENT_TIMEOUT_MS" "30000" (omega arith) h11;
            } in
            described

from_env_described :
    (env : Env) (random_id : String) (config : Config)
    → Describes env random_id config
    → from_env env random_id ≡ returns config
unfolding from_env number
from_env_described env random_id config h =
    rw
      (
        h.http_host,
        h.http_port.0,
        h.tcp_host,
        h.tcp_port_start.0,
        h.tcp_port_end.0,
        h.base_domain,
        h.turso_url,
        h.turso_token,
        h.heartbeat_interval_ms.0,
        h.leader_timeout_ms.0,
        h.agent_timeout_ms.0,
        sym h.server_id,
      )
      refl

-- Settings are returned exactly if each of them is what its own variable says: the six texts are set,
-- the id is set or the random one, and the six numbers, each of its variable or the default in its
-- place, can be read and fit, the ports in 16 bits and the times in 64.
pub from_env-Describes :
    (env : Env) (random_id : String) (config : Config)
    → (from_env env random_id ≡ returns config) ↔ Describes env random_id config
from_env-Describes env random_id config = (
  λ eq. rw eq at (from_env-Returns env random_id),
  λ described. from_env_described env random_id config described,
)

-- The environment that writes the settings out, the numbers in decimal.
unfoldable pub env_of : Config → Env
unfolding get show_ℕ
env_of config name = get name (
    ("SERVER_ID", config.server_id)
    ∷ ("HTTP_HOST", config.http_host)
    ∷ ("HTTP_PORT", show_ℕ config.http_port)
    ∷ ("TCP_HOST", config.tcp_host)
    ∷ ("TCP_PORT_START", show_ℕ config.tcp_port_start)
    ∷ ("TCP_PORT_END", show_ℕ config.tcp_port_end)
    ∷ ("BASE_DOMAIN", config.base_domain)
    ∷ ("TURSO_URL", config.turso_url)
    ∷ ("TURSO_TOKEN", config.turso_token)
    ∷ ("HEARTBEAT_INTERVAL_MS", show_ℕ config.heartbeat_interval_ms)
    ∷ ("LEADER_TIMEOUT_MS", show_ℕ config.leader_timeout_ms)
    ∷ ("AGENT_TIMEOUT_MS", show_ℕ config.agent_timeout_ms)
    ∷ [])

-- Ports are 16-bit, times are 64-bit.
abbrev pub IsBounded : Config → Type 0
IsBounded c =
    (c.http_port < 65536)
    × (c.tcp_port_start < 65536)
    × (c.tcp_port_end < 65536)
    × (c.heartbeat_interval_ms < 2 ^ 64)
    × (c.leader_timeout_ms < 2 ^ 64)
    × (c.agent_timeout_ms < 2 ^ 64)
