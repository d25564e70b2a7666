-- ===== src/System/Access.antt =====
-- What a server comes to that denies every registration.
use jrok_rs.Base.{
  ◌⊎◌, inl, inr, sym, ℕ, ◌≡◌, refl, ap, ◌∙◌, Bool, true, false, none, String, ◌==◌, if◌then◌else◌,
}
use jrok_rs.Agent.{AgentRegistry, new_registry, get_by_subdomain}
use jrok_rs.Agent.Connection.{Connection, Server, on_text}
use jrok_rs.Agent.Connection.Access.{
  OfRegistration, OnRegister, HasInvalidKey, LeavesAlone, IsRefused, map-OnRegister,
  on_register-Untouched, on_text-Untouched,
}
use mathlib.Core.Path.{subst}
use jrok_rs.Agent.Register.{register}
use jrok_rs.Agent.Register.Tables.{Ends, answers_of, new_entry, register-answers_of}
use jrok_rs.Agent.Connection.{Surroundings, admit, on_register}
use jrok_rs.Db.{protocol_of}
use jrok_rs.Db.Servers.{Tables}
use jrok_rs.Db.Statement.{Driver}
use jrok_rs.Error.{Error, err}
use jrok_rs.Error.Cases.{Result-cases}
use jrok_rs.Agent.Stale.{cleanup_stale}
use jrok_rs.Base.Map.{get}
use jrok_rs.Tcp
use jrok_rs.Tcp.{Facilitator, request_connection, agent_listening, connection_failed}
use jrok_rs.Tcp.Http.{
  handle_tcp_connection_request, handle_agent_listening, report_connection_failure,
}
use jrok_rs.Tunnel.{proxy_http}
use jrok_rs.System.{
  Libraries, System, Step, reads, proxies, dials, listens, fails_over, cleans_agents, connect_info,
  init, Reach, start, later,
}

-- The server is as it has begun, and nobody is registered on any connection.
Untouched : (server_id : String) → System → Type 0
Untouched server_id s =
    (s.server ≡ (init server_id).server) × ((n : ℕ) → (s.connections n).agent_id ≡ none)

if-nobody :
    (b : Bool) (c c' : Connection)
    → c.agent_id ≡ none
    → c'.agent_id ≡ none
    → (if b then c else c').agent_id ≡ none
if-nobody true c c' nobody nobody' = nobody
if-nobody false c c' nobody nobody' = nobody'

-- The answers to a registration are those of the tables as the migrations create them, whatever rows
-- they hold and however the statements end.
abbrev pub FromTables :
    (server_id : String)
    → Surroundings
    → (subdomain : String) (local_port : ℕ) (local_host protocol : String) → Type 0
FromTables server_id s subdomain local_port local_host protocol =
    (driver : Driver) × (ends : Ends) × (token : String) × (tables : Tables) × (s.answers
      ≡ answers_of driver ends s.now_ms
          (new_entry s.new_id token server_id s.now_ms subdomain local_port local_host
            (protocol_of protocol))
          tables)

-- The key is not valid, or the answers are those of the tables.
abbrev pub IsDenied : (server_id : String) → OfRegistration
IsDenied server_id s subdomain local_port local_host protocol api_key =
    HasInvalidKey s subdomain local_port local_host protocol api_key
    ⊎ FromTables server_id s subdomain local_port local_host protocol

module _ (s : Surroundings) (subdomain : String) (local_port : ℕ)
    (local_host protocol api_key : String) (server : Server) where
  -- A registration with which `register` fails.
  refused-LeavesAlone :
      (e : Error)
      → register s.answers s.new_id s.channel s.now_ms subdomain local_port local_host
          (protocol_of protocol)
          server.registry
        ≡ (server.registry, err e)
      → LeavesAlone server s subdomain local_port local_host protocol api_key
  unfolding on_register admit
  refused-LeavesAlone e refused c nobody = elim (Result-cases (s.key_answer api_key)) [
    | inl (e', failed) ↦ rw (failed, on_register) (nobody, refl)
    | inr (false, invalid) ↦ rw (invalid, on_register) (nobody, refl)
    | inr (true, valid) ↦
        rw (valid, on_register)
          (rw (ap (λ r. r.1) refused, admit)
            (nobody, ap (λ r. record server { registry = r.0 }) refused))
  ]

  denied-LeavesAlone :
      IsDenied server.registry.server_id s subdomain local_port local_host protocol api_key
      → LeavesAlone server s subdomain local_port local_host protocol api_key
  denied-LeavesAlone (inl invalid) c nobody =
      on_register-Untouched s subdomain local_port local_host protocol api_key c server invalid
        nobody
  denied-LeavesAlone (inr (driver, ends, token, tables, answers)) c nobody =
      let ((e, refused), same) =
        register-answers_of driver ends s.new_id token s.channel s.now_ms subdomain local_port
          local_host (protocol_of protocol) tables server.registry in
      refused-LeavesAlone e (rw answers refused) c nobody

module _ (server_id : String) (server : Server) (same : server ≡ (init server_id).server) where
  -- Handlers that write back the registry, or the facilitator, that they find at the beginning.
  registry_kept :
      (f : Server → AgentRegistry)
      → f (init server_id).server ≡ (init server_id).server.registry
      → record server { registry = f server } ≡ (init server_id).server
  registry_kept f kept =
      ap (λ (before : Server). record before { registry = f before }) same
      ∙ ap (λ registry. record (init server_id).server { registry = registry }) kept

  facilitator_kept :
      (f : Server → Facilitator)
      → f (init server_id).server ≡ (init server_id).server.facilitator
      → record server { facilitator = f server } ≡ (init server_id).server
  facilitator_kept f kept =
      ap (λ (before : Server). record before { facilitator = f before }) same
      ∙ ap (λ f'. record (init server_id).server { facilitator = f' }) kept

module _ {libs : Libraries} where
  -- A step that reads no registration, or one that is denied.
  abbrev pub IsDeniedStep : (server_id : String) {s t : System} → Step libs s t → Type 0
  IsDeniedStep server_id (reads n text) = OnRegister (IsDenied server_id) text
  IsDeniedStep server_id _ = Unit

  -- A history in which every registration is denied.
  abbrev pub AllDenied : {server_id : String} {s : System} → Reach libs server_id s → Type 0
  AllDenied start = Unit
  AllDenied {server_id} (later reached step) = AllDenied reached × IsDeniedStep server_id step

  Step-Untouched :
      (server_id : String) {s t : System} (step : Step libs s t)
      → IsDeniedStep server_id step
      → Untouched server_id s
      → Untouched server_id t
  unfolding Untouched init new_registry get_by_subdomain proxy_http handle_tcp_connection_request
      handle_agent_listening agent_listening report_connection_failure connection_failed
      cleanup_stale Tcp.new get
  Step-Untouched server_id {s = s} (reads n text) denied (same, nobody) =
      let (nobody', kept) =
        on_text-Untouched libs.base64 text (s.connections n) s.server
          (subst (λ (server : Server). IsRefused server text) (sym same)
            (map-OnRegister (IsDenied server_id) (LeavesAlone (init server_id).server)
              (λ s' subdomain local_port local_host protocol api_key.
                denied-LeavesAlone s' subdomain local_port local_host protocol api_key
                  (init server_id).server)
              text denied))
          (nobody n) in
      (
        kept ∙ same,
        λ m.
            if-nobody (m == n) (on_text libs.base64 text (s.connections n, s.server)).0
              (s.connections m) nobody' (nobody m),
      )
  Step-Untouched server_id {s = s} (proxies remote request_id channel meanwhile request) denied
        (same, nobody) =
      (
        registry_kept server_id s.server same
            (λ server.
              (proxy_http libs.http libs.channels remote request_id channel meanwhile request
                server.registry).0)
            refl,
        nobody,
      )
  Step-Untouched server_id {s = s} (dials session_id now_ms subdomain peer) denied (same, nobody) =
      (
        facilitator_kept server_id s.server same
            (λ server.
              (handle_tcp_connection_request libs.addresses libs.channels server.registry
                libs.missing_info session_id now_ms subdomain (connect_info peer)
                server.facilitator).0)
            refl,
        nobody,
      )
  Step-Untouched server_id {s = s} (listens request) denied (same, nobody) = (
    facilitator_kept server_id s.server same
        (λ server. (handle_agent_listening request server.facilitator).0) refl,
    nobody,
  )
  Step-Untouched server_id {s = s} (fails_over session_id) denied (same, nobody) = (
    facilitator_kept server_id s.server same
        (λ server. (report_connection_failure session_id server.facilitator).0) refl,
    nobody,
  )
  Step-Untouched server_id {s = s} (cleans_agents answers final now_ms timeout_ms) denied
        (same, nobody) =
      (
        registry_kept server_id s.server same
            (λ server. (cleanup_stale answers final now_ms timeout_ms server.registry).0) refl,
        nobody,
      )

  Reach-Untouched :
      {server_id : String} {s : System} (reached : Reach libs server_id s)
      → AllDenied reached
      → Untouched server_id s
  unfolding Untouched init
  Reach-Untouched start denied = (refl, λ n. refl)
  Reach-Untouched (later reached step) (before, denied) =
      Step-Untouched _ step denied (Reach-Untouched reached before)

-- As long as every registration among the texts that have arrived has a key that is not valid, or is
-- answered by tables as the migrations create them, the state that the handlers share, the registry,
-- the facilitator and the responses handed over, is that of a server that has just begun, whatever
-- else has happened and in whatever order.
pub Reach-AllDenied :
    (libs : Libraries) (server_id : String) (s : System) (reached : Reach libs server_id s)
    → AllDenied reached
    → s.server ≡ (init server_id).server
unfolding Untouched
Reach-AllDenied libs server_id s reached denied = (Reach-Untouched reached denied).0
