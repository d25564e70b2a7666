-- ===== src/Tests/System.antt =====
-- Instances of the theorems on the whole server, once an agent has registered with a valid key.
use jrok_rs.Base.{ℕ, inl, inr, refl, ◌≡◌, true, Option, none, some, [], ◌∷◌, false}
use jrok_rs.Agent.{send_message, get_by_subdomain}
use jrok_rs.Agent.Connection.{Surroundings, on_text}
use jrok_rs.Error.{Error, ok, err}
use jrok_rs.Proto.{Message}
use jrok_rs.System.Access.{Reach-AllDenied}
use jrok_rs.Agent.Register.Tables.{answers_of, new_entry}
use jrok_rs.Db.{protocol_of}
use jrok_rs.System.{
  Libraries, System, reads, dials, with_facilitator, init, with_connection, Reach, start, later,
  connect_info,
}
use jrok_rs.System.Start
use jrok_rs.System.Start.{Database, main}
use jrok_rs.System.Start.Health.{StartsWell, all_well, main_lem}
use jrok_rs.Db.Statement.{answered}
use jrok_rs.Tests.Config.{env, config, env_runs}
use jrok_rs.System.Safety.{send_message-Reach, proxy_http-Reach, facilitator-Reach}
use jrok_rs.System.Deaf.{IsRefusal}
use jrok_rs.Tcp
use jrok_rs.Tcp.Http.{
  AgentListeningRequest, handle_tcp_connection_request, get_session_status, handle_agent_listening,
  report_connection_failure,
}
use jrok_rs.Tests.Connection.{ends, surroundings, http_syntax, request}
use jrok_rs.Tests.Fixtures.{
  driver, channels, list_base64, strokes_syntax, public_addr, server_row, tables,
}
use jrok_rs.Tunnel.{proxy_http}

abbrev libs : Libraries
libs = record {
  base64 = list_base64;
  addresses = strokes_syntax;
  channels = channels;
  http = http_syntax;
  missing_info = "Missing request extension";
}

-- The registration of a TCP agent for the subdomain "ssh".
abbrev text : Surroundings × Option Message
text = (
  record surroundings { key_answer = λ key. ok true },
  some (Message.register "ssh" 22 "localhost" "tcp" "key"),
)

abbrev registered : System
registered =
    let begun = init "server-1" in
    with_connection 0 (on_text list_base64 text (begun.connections 0, begun.server)) begun

abbrev wrong_key : Surroundings × Option Message
wrong_key = (surroundings, some (Message.register "ssh" 22 "localhost" "tcp" "guess"))

abbrev report : Surroundings × Option Message
report = (surroundings, some (Message.tcp_listen_response "s1" "192.0.2.1:1" none))

abbrev listening : AgentListeningRequest
listening = record { session_id = "s1"; endpoint = "192.0.2.1:1"; agent_nat = none }

registered-Reach : Reach libs "server-1" registered
registered-Reach = later start (reads 0 text)

send_message-Reach_example :
    (e : Error) × (send_message channels registered.server.registry "agent-2" Message.heartbeat_ack
      ≡ err e)
send_message-Reach_example =
    send_message-Reach libs "server-1" registered "agent-2" Message.heartbeat_ack registered-Reach

proxy_http-Reach_example :
    let (after, reply) =
      proxy_http http_syntax channels
        (ok none)
        "r1"
        7
        (λ registry. (registry, none))
        request
        registered.server.registry in
    (after.agents ≡ registered.server.registry.agents)
    × IsRefusal (get_by_subdomain registered.server.registry request.subdomain) reply.status
proxy_http-Reach_example =
    proxy_http-Reach libs "server-1" registered (ok none) "r1" 7 (λ registry. (registry, none))
      request registered-Reach

facilitator-Reach_example :
    let f = registered.server.facilitator in
    (f ≡ Tcp.new)
    × ((handle_tcp_connection_request strokes_syntax channels registered.server.registry
          libs.missing_info "s1" 1000 "ssh"
          (connect_info public_addr)
          f).1.code
        ≡ 500)
    × ((get_session_status "s1" f).code ≡ 404)
    × ((handle_agent_listening listening f).1.code ≡ 404)
    × ((report_connection_failure "s1" f).1.code ≡ 404)
facilitator-Reach_example =
    facilitator-Reach libs "server-1" registered "s1" 1000 "ssh" public_addr listening
      registered-Reach

-- A registration with a wrong key, one with a valid key over the tables, a report and a request.
abbrev over_tables : Surroundings × Option Message
over_tables = (
  record surroundings {
    key_answer = λ key. ok true;
    answers =
        answers_of driver ends 1000
          (new_entry "agent-2" "token" "server-1" 1000 "ssh" 22 "localhost" (protocol_of "tcp"))
          tables;
  },
  some (Message.register "ssh" 22 "localhost" "tcp" "key"),
)

abbrev after_text : ℕ → Surroundings × Option Message → System → System
after_text n message s =
    with_connection n (on_text list_base64 message (s.connections n, s.server)) s

abbrev denied : System
denied =
    let reported =
      after_text 1 report (after_text 1 over_tables (after_text 0 wrong_key (init "server-1"))) in
    with_facilitator
      (handle_tcp_connection_request strokes_syntax channels reported.server.registry
        libs.missing_info "s1" 1000 "ssh" (connect_info public_addr) reported.server.facilitator).0
      reported

abbrev denied_history : Reach libs "server-1" denied
denied_history =
    later (later (later (later start (reads 0 wrong_key)) (reads 1 over_tables)) (reads 1 report))
      (dials "s1" 1000 "ssh" public_addr)

Reach-AllDenied_example : denied.server ≡ (init "server-1").server
Reach-AllDenied_example =
    Reach-AllDenied libs "server-1" denied denied_history
      ((((tt, inl refl), inr (driver, ends, "token", tables, refl)), tt), tt)

-- A start on the tables of a server that was marked as unhealthy.
abbrev surroundings_of_start : Start.Surroundings
surroundings_of_start = record {
  env = env;
  random_id = "server-1";
  connection = ok tt;
  migration = answered;
  registration = answered;
  now_ms = 60_000;
  bind_error = λ address. none;
}

abbrev database : Database
database = record {
  tables = record tables { servers = record server_row { is_healthy = false } ∷ [] };
  state = none;
}

main_lem_example :
    StartsWell
      (all_well surroundings_of_start config)
      surroundings_of_start
      config
      (main surroundings_of_start database)
main_lem_example = main_lem surroundings_of_start config database env_runs
