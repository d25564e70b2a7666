-- ===== src/System/Start.antt =====
-- src/main.rs: how the server starts, with Db::new of src/db/mod.rs and the start of the cluster in
-- src/cluster/mod.rs; and main's routing table.
pub mod Health
use jrok_rs.Base.{ℕ, Bool, true, false, Option, none, some, String, List, [], ◌∷◌}
use jrok_rs.Base.Int.{pos}
use jrok_rs.Base.Text.{◌+s◌, show_ℕ}
use jrok_rs.Cluster.{ClusterState, Row}
use jrok_rs.Cluster.Upkeep.{register_server, shutdown}
use jrok_rs.Config.{Config, Env, from_env}
use jrok_rs.Db.Servers.{Tables}
use jrok_rs.Db.Statement.{Fate, execute}
use jrok_rs.Error.{Result, ok, err}
use jrok_rs.Exec.{Exec, returns, fails, panics, out_of_fuel}
use jrok_rs.System.{System, init}

-- The tables that the start writes; one that does not exist yet has no rows.
pub record Database : Type 0 where
  pub tables : Tables
  pub state : Row

-- INSERT OR IGNORE INTO cluster_state
abbrev pub insert_or_ignore : Row → Row
insert_or_ignore none =
    some (record { leader_id = none; leader_term = pos 0; last_heartbeat = pos 0 })
insert_or_ignore (some state) = some state

-- `Db::run_migrations`: a table that exists is kept.
unfoldable pub run_migrations : Fate → Database → Database × Result (Unit {0})
run_migrations fate = execute fate λ db. (record db { state = insert_or_ignore db.state }, ok tt)

-- `Db::new`, with the end of the connection.
unfoldable pub new_db : Result (Unit {0}) → Fate → Database → Database × Result (Unit {0})
unfolding run_migrations
new_db (err e) migration db = (db, err e)
new_db (ok _) migration db = run_migrations migration db

-- `.expect(…)` after an operation on a state.
abbrev pub expect_then {ℓ κ} :
    {T : Type ℓ} {A : Type κ} → T × Result (Unit {0}) → (T → T × Exec A) → T × Exec A
expect_then (t, err e) next = (t, panics)
expect_then (t, ok _) next = next t

pub record Cluster : Type 0 where
  pub config : Config
  pub is_leader : Bool

-- `Cluster::new`
abbrev pub new_cluster : Config → Cluster
new_cluster config = record { config = config; is_leader = false }

-- `Cluster::start`, up to the two loops that it spawns.
unfoldable pub start_cluster : Cluster → Fate → (now_ms : ℕ) → Database → Database × Exec (Unit {0})
unfolding register_server
start_cluster cluster fate now_ms db =
    let (tables, result) = register_server cluster.config fate now_ms db.tables in
    expect_then (record db { tables = tables }, result) λ db'. (db', returns tt)

-- What the start meets: the environment and a random id, the ends of the connection, of the
-- migrations and of the registration, the clock, and the error of binding to an
-- address or of reading it back.
pub record Surroundings : Type 0 where
  pub env : Env
  pub random_id : String
  pub connection : Result (Unit {0})
  pub migration : Fate
  pub registration : Fate
  pub now_ms : ℕ
  pub bind_error : String → Option String

-- The server, when it begins to serve.
pub record Started : Type 0 where
  pub system : System
  pub cluster : Cluster
  pub address : String

abbrev pub address_of : Config → String
address_of config = config.http_host +s ":" +s show_ℕ config.http_port

abbrev pub started : Config → Started
started config = record {
  system = init config.server_id;
  cluster = new_cluster config;
  address = address_of config;
}

-- The rest of `main` once the cluster has started.
abbrev pub serve : Surroundings → Config → Database × Exec (Unit {0}) → Database × Exec Started
serve s config (db, returns _) = elim (s.bind_error (address_of config)) [
  | some e ↦ (db, panics)
  | none ↦ (db, returns (started config))
]
serve s config (db, fails e) = (db, fails e)
serve s config (db, panics) = (db, panics)
serve s config (db, out_of_fuel) = (db, out_of_fuel)

abbrev pub main_with : Surroundings → Exec Config → Database → Database × Exec Started
main_with s (returns config) db =
    expect_then (new_db s.connection s.migration db)
      λ db'. serve s config (start_cluster (new_cluster config) s.registration s.now_ms db')
main_with s (fails e) db = (db, fails e)
main_with s panics db = (db, panics)
main_with s out_of_fuel db = (db, out_of_fuel)

-- `main`, up to `axum::serve`.
unfoldable pub main : Surroundings → Database → Database × Exec Started
unfolding from_env new_db start_cluster init
main s db = main_with s (from_env s.env s.random_id) db

-- The task that `main` spawns for ctrl-c: the end of the shutdown is ignored, and nothing else stops.
unfoldable pub on_signal : Config → (first second : Fate) (now_ms : ℕ) → Database → Database
unfolding shutdown
on_signal config first second now_ms db = record db {
  tables = (shutdown config first second now_ms db.tables).0;
}

-- The methods of a route, and the handlers.
pub data Method : Type 0 where
  get post any : Method

pub data Handler : Type 0 where
  health handle_agent_ws proxy_http handle_tcp_connection_request get_session_status : Handler
  agent_listening report_connection_failure relay_to_agent get_connection_stats : Handler

-- The routing table, in the order of its lines. What pattern a path matches is up to axum.
abbrev pub routes : List (Method × String × Handler)
routes =
    (get, "/health", health)
    ∷ (get, "/ws/agent", handle_agent_ws)
    ∷ (any, "/:subdomain/*path", proxy_http)
    ∷ (get, "/tcp/:subdomain", handle_tcp_connection_request)
    ∷ (get, "/tcp/session/:session_id", get_session_status)
    ∷ (post, "/agent/listening", agent_listening)
    ∷ (post, "/tcp/session/:session_id/fail", report_connection_failure)
    ∷ (post, "/relay/:session_id/agent", relay_to_agent)
    ∷ (get, "/stats", get_connection_stats)
    ∷ []

-- `health`
abbrev pub health_text : String
health_text = "ok"
