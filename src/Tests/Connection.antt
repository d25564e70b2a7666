-- ===== src/Tests/Connection.antt =====
-- Instances of the theorems on src/agent/mod.rs, on registrations over the tables, and on
-- src/tunnel/mod.rs.
use jrok_rs.Base.{◌≡◌, ◌≢◌, refl, false, true, Option, none, some, String, List, [], ◌∷◌}
use jrok_rs.Base.Map.{get}
use jrok_rs.Agent.{create_pending_request}
use jrok_rs.Agent.Connection.{
  Surroundings, Connection, Server, opened, on_text, handle_agent_connection,
}
use jrok_rs.Agent.Connection.Access.{handle_agent_connection-AllUnauthorized}
use jrok_rs.Agent.Connection.Answered.{delivered-on_text}
use jrok_rs.Agent.Connection.Kept.{Knows, handle_agent_connection-Knows}
use jrok_rs.Agent.Register.{register}
use jrok_rs.Agent.Register.Tables.{Ends, new_entry, answers_of, register-answers_of}
use jrok_rs.Db.{tcp}
use jrok_rs.Db.Agents.{register_agent}
use jrok_rs.Db.Statement.{answered}
use jrok_rs.Error.{Error, ok, err}
use jrok_rs.Proto.{Message}
use jrok_rs.Tcp
use jrok_rs.Tcp.Session.{ConnectionSession, new_session}
use jrok_rs.Tests.Fixtures.{
  agent, registry_of, channels, driver, tables, list_base64, strokes_syntax, private_text,
}
use jrok_rs.Tunnel.{HttpSyntax, Request, proxy_http}
use jrok_rs.Tunnel.Outcomes.{SameWaits, wait_for, proxy_http-SameWaits}

-- No key is valid; a registration would find no row and be inserted.
abbrev pub surroundings : Surroundings
surroundings = record {
  key_answer = λ key. ok false;
  answers = record {
    get_agent_by_subdomain = λ _. ok none;
    get_server = λ _. ok none;
    register_agent = ok tt;
  };
  new_id = "agent-2";
  channel = 5;
  now_ms = 1000;
  heartbeat_answer = ok tt;
}

abbrev session : ConnectionSession
session = new_session strokes_syntax "s1" 1000 "ssh" private_text "agent-1"

abbrev pub server : Server
server = record {
  registry = registry_of agent;
  facilitator = record Tcp.new { sessions = ("s1", session) ∷ [] };
  delivered = [];
}

-- A report without a registration, then a registration with a wrong key.
abbrev texts : List (Surroundings × Option Message)
texts =
    (surroundings, some (Message.tcp_listen_response "s1" "192.0.2.1:1" none))
    ∷ (surroundings, none)
    ∷ (surroundings, some (Message.register "web" 80 "localhost" "http" "guess"))
    ∷ []

handle_agent_connection-AllUnauthorized_example :
    let (c, after) = handle_agent_connection list_base64 texts (opened, server) in
    (c.agent_id ≡ none) × (after ≡ server)
handle_agent_connection-AllUnauthorized_example =
    handle_agent_connection-AllUnauthorized list_base64 texts server (tt, (tt, (refl, tt)))

handle_agent_connection-Knows_example :
    Knows "agent-1" (handle_agent_connection list_base64 texts (opened, server)).1.registry
unfolding get
handle_agent_connection-Knows_example =
    handle_agent_connection-Knows "agent-1" list_base64 texts opened server (agent, refl)

abbrev registered : Connection
registered = record opened { agent_id = some "agent-2" }

delivered-on_text_example :
    let waiting : Server = record server {
      registry = create_pending_request server.registry "r1" 7;
    } in
    let text : Surroundings × Option Message =
      (surroundings, some (Message.http_response "r1" 200 [] (some (104 ∷ 105 ∷ [])))) in
    let first = on_text list_base64 text (registered, waiting) in
    (first.1.delivered
      ≡ (7, record { status = 200; headers = []; body = 104 ∷ 105 ∷ [] }) ∷ server.delivered)
    × ((on_text list_base64 text first).1.delivered ≡ first.1.delivered)
    × ((other : String)
        → "r1" ≢ other
        → get other first.1.registry.pending ≡ get other server.registry.pending)
delivered-on_text_example =
    delivered-on_text list_base64 surroundings registered server "agent-2" refl refl "r1" 7 200 []
      (104 ∷ 105 ∷ [])

abbrev pub ends : Ends
ends = record { existing = answered; owner = answered; insertion = answered }

register-answers_of_example :
    let entry = new_entry "agent-2" "token" "server-1" 1000 "web" 80 "localhost" tcp in
    let db = answers_of driver ends 1000 entry tables in
    ((e : Error) × (register db "agent-2" 5 1000 "web" 80 "localhost" tcp (registry_of agent)
        ≡ (registry_of agent, err e)))
    × ((register_agent driver answered 1000 entry tables.agents).0 ≡ tables.agents)
register-answers_of_example =
    register-answers_of driver ends "agent-2" "token" 5 1000 "web" 80 "localhost" tcp tables
      (registry_of agent)

abbrev pub http_syntax : HttpSyntax
http_syntax = record {
  is_status = λ status. true;
  header = λ name value. some (name, value);
  fits = λ headers. true;
  location = λ redirect_url. some redirect_url;
  invalid_value = "failed to parse header value";
}

abbrev pub request : Request
request = record {
  subdomain = "ssh";
  path = "index.html";
  method = "GET";
  headers = ("Accept", some "text/html") ∷ [];
  body = some [];
}

proxy_http-SameWaits_example :
    SameWaits
      (proxy_http http_syntax channels
        (ok none)
        "r1"
        7
        (wait_for list_base64.decode "r1" (some (200, [], none)))
        request
        (registry_of agent)).0
      (registry_of agent)
unfolding get
proxy_http-SameWaits_example =
    proxy_http-SameWaits http_syntax list_base64.decode "r1" 7 (registry_of agent) refl channels
      (ok none) request (some (200, [], none))
