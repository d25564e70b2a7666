-- ===== src/System.antt =====
-- src/main.rs: the whole server, as the interleaved work of its connections, its HTTP handlers and the
-- registry's part of the cleanup loop.
pub mod Access
pub mod Deaf
pub mod Safety
pub mod Start
use jrok_rs.Base.{ℕ, Option, none, some, String, [], ◌==◌, if◌then◌else◌}
use jrok_rs.Base.Int.{ℤ}
use jrok_rs.Agent.{AgentRegistry, HttpResponse, Channels, new_registry}
use jrok_rs.Agent.Connection.{Base64, Surroundings, Connection, Server, opened, on_text}
use jrok_rs.Agent.Stale.{cleanup_stale}
use jrok_rs.Error.{Result}
use jrok_rs.Net.{AddrSyntax, SocketAddr}
use jrok_rs.Proto.{Message}
use jrok_rs.Tcp
use jrok_rs.Tcp.{Facilitator}
use jrok_rs.Tcp.Http.{
  AgentListeningRequest, handle_tcp_connection_request, handle_agent_listening,
  report_connection_failure,
}
use jrok_rs.Tunnel.{HttpSyntax, Request, proxy_http}

-- The libraries that the server works with.
pub record Libraries : Type 0 where
  pub base64 : Base64
  pub addresses : AddrSyntax
  pub channels : Channels
  pub http : HttpSyntax
  -- The text of axum's rejection of a request without `ConnectInfo`.
  pub missing_info : String

-- What the handlers share, and the handler of each connection by the number of the connection.
pub record System : Type 0 where
  pub server : Server
  pub connections : ℕ → Connection

-- The state in which `main` begins to serve.
unfoldable pub init : (server_id : String) → System
unfolding new_registry Tcp.new
init server_id = record {
  server = record { registry = new_registry server_id; facilitator = Tcp.new; delivered = [] };
  connections = λ n. opened;
}

abbrev pub with_facilitator : Facilitator → System → System
with_facilitator f s = record s { server = record s.server { facilitator = f } }

abbrev with_registry : AgentRegistry → System → System
with_registry registry s = record s { server = record s.server { registry = registry } }

abbrev pub with_connection : ℕ → Connection × Server → System → System
with_connection n (c, server) s = record {
  server = server;
  connections = λ m. if m == n then c else s.connections m;
}

-- The `ConnectInfo` of a request from a peer: `main` serves its router as it is, and not by
-- `into_make_service_with_connect_info`, so that no request has one.
abbrev pub connect_info : (peer : SocketAddr) → Option SocketAddr
connect_info peer = none

-- One step: a text is read on a connection, a request arrives for a handler of main's table that
-- changes the state, or the agents are cleaned up. What a handler draws or asks the database for is any
-- value; so is what happens to the registry during the wait of a proxied request.
pub data Step (libs : Libraries) (s : System) : System → Type 0 where
  reads :
      (n : ℕ) (text : Surroundings × Option Message)
      → Step libs s (with_connection n (on_text libs.base64 text (s.connections n, s.server)) s)
  proxies :
      (remote : Result (Option String)) (request_id : String) (channel : ℕ)
      (meanwhile : AgentRegistry → AgentRegistry × Option HttpResponse) (request : Request)
      → Step libs s (
          with_registry
            (proxy_http libs.http libs.channels remote request_id channel meanwhile request
              s.server.registry).0
            s)
  dials :
      (session_id : String) (now_ms : ℕ) (subdomain : String) (peer : SocketAddr)
      → Step libs s (
          with_facilitator
            (handle_tcp_connection_request libs.addresses libs.channels s.server.registry
              libs.missing_info session_id now_ms subdomain
              (connect_info peer)
              s.server.facilitator).0
            s)
  listens :
      (request : AgentListeningRequest)
      → Step libs s (with_facilitator (handle_agent_listening request s.server.facilitator).0 s)
  fails_over :
      (session_id : String)
      → Step libs s
          (with_facilitator (report_connection_failure session_id s.server.facilitator).0 s)
  cleans_agents :
      (answers : String → Result (Unit {0})) (final : Result (Unit {0})) (now_ms : ℕ)
      (timeout_ms : ℤ)
      → Step libs s
          (with_registry (cleanup_stale answers final now_ms timeout_ms s.server.registry).0 s)

-- The states of a server from its start on.
pub data Reach (libs : Libraries) (server_id : String) : System → Type 0 where
  start : Reach libs server_id (init server_id)
  later : {s t : System} → Reach libs server_id s → Step libs s t → Reach libs server_id t
