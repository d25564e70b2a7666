-- ===== src/Tcp/Http.antt =====
-- src/tcp/mod.rs: the HTTP handlers of the facilitator.
pub mod Statistics
use mathlib.Core.Option
use jrok_rs.Base.{ℕ, Bool, Option, none, some, String, List, [], ◌∷◌, ltb, if◌then◌else◌}
use jrok_rs.Base.Int.{pos}
use jrok_rs.Base.Text.{◌+s◌}
use jrok_rs.Agent.{AgentRegistry, Channels}
use jrok_rs.Error.{Result, ok, err, show_error}
use jrok_rs.Nat.{NatInfo}
use jrok_rs.Net.{AddrSyntax, SocketAddr}
use jrok_rs.Proto.{NatInfoSer, nat_info_of_ser}
use jrok_rs.Tcp.Session.{
  Tracker, ConnectionSession, ConnectionStatus, pending, finding_agent, requesting, hole_punching,
  ready, connected, relayed, failed,
}
use jrok_rs.Tcp.{
  Facilitator, request_connection, agent_listening, connection_failed, get_session,
  cleanup_sessions, session_count, active_count,
}

-- A member of a JSON object in a response.
pub data Json : Type 0 where
  str : String → Json
  num : ℕ → Json
  bool : Bool → Json
  null : Json
  nat_info : NatInfo → Json

pub data Body : Type 0 where
  text : String → Body
  json : List (String × Json) → Body

pub record Response : Type 0 where
  pub code : ℕ
  pub body : Body

abbrev pub or_null {ℓ} : {A : Type ℓ} → (A → Json) → Option A → Json
or_null f none = null
or_null f (some a) = f a

-- The answer to a request whose session is there, or cannot be.
pub connection_response : Result ConnectionSession → Response
unfolding show_error
connection_response (ok session) = record {
  code = 202;
  body = json (
      ("session_id", str session.session_id)
      ∷ ("status", str "pending")
      ∷ ("message", str "Agent is preparing connection. Poll /tcp/session/{session_id} for status.")
      ∷ ("poll_url", str ("/tcp/session/" +s session.session_id))
      ∷ []);
}
connection_response (err e) = record {
  code = 404;
  body = text ("Service not found: " +s show_error e);
}

-- `handle_tcp_connection_request`: its last argument but one is the `ConnectInfo` of the request. If
-- there is none, axum rejects the request with the text `rejection`, and the handler does not run.
unfoldable pub handle_tcp_connection_request :
    AddrSyntax
    → Channels
    → AgentRegistry
    → (rejection session_id : String) (now_ms : ℕ) (subdomain : String) → Option SocketAddr
    → Facilitator
    → Facilitator × Response
unfolding request_connection connection_response
handle_tcp_connection_request syn channels registry rejection session_id now_ms subdomain none f =
    (f, record { code = 500; body = text rejection })
handle_tcp_connection_request syn channels registry rejection session_id now_ms subdomain
      (some addr) f =
    let (f', result) =
      request_connection syn channels registry session_id now_ms subdomain
        (syn.show_socket_addr addr) f in
    (f', connection_response result)

abbrev pub pending_report : String → String → List (String × Json)
pending_report session_id message =
    ("session_id", str session_id) ∷ ("status", str "pending") ∷ ("message", str message) ∷ []

-- The `if let Some(endpoint)` of a ready session.
unfoldable pub ready_report : String → ConnectionSession → Option String → List (String × Json)
ready_report session_id session none = pending_report session_id "Agent endpoint not yet available"
ready_report session_id session (some endpoint) =
    ("session_id", str session_id)
    ∷ ("status", str "ready")
    ∷ ("agent_endpoint", str endpoint)
    ∷ ("message", str "Connect directly to this endpoint")
    ∷ ("instruction", str ("Connect directly to: " +s endpoint))
    ∷ ("direct_connection", bool session.direct_connection)
    ∷ []

-- The `match session.status`.
unfoldable pub report : String → ConnectionSession → ConnectionStatus → List (String × Json)
unfolding ready_report
report session_id session pending = pending_report session_id "Waiting for agent..."
report session_id session finding_agent = pending_report session_id "Waiting for agent..."
report session_id session requesting = pending_report session_id "Waiting for agent..."
report session_id session hole_punching =
    ("session_id", str session_id)
    ∷ ("status", str "hole_punching")
    ∷ ("message", str "NAT traversal in progress")
    ∷ ("client_nat", or_null nat_info session.client_nat)
    ∷ ("agent_nat", or_null nat_info session.agent_nat)
    ∷ []
report session_id session ready = ready_report session_id session session.agent_endpoint
report session_id session connected =
    ("session_id", str session_id)
    ∷ ("status", str "connected")
    ∷ ("agent_endpoint", or_null str session.agent_endpoint)
    ∷ ("message", str "Connection established successfully")
    ∷ ("direct", bool session.direct_connection)
    ∷ []
report session_id session relayed =
    ("session_id", str session_id)
    ∷ ("status", str "relayed")
    ∷ ("message", str "Connection relayed through server")
    ∷ []
report session_id session failed =
    ("session_id", str session_id)
    ∷ ("status", str "failed")
    ∷ ("message", str "Connection failed")
    ∷ []

-- `get_session_status`
unfoldable pub get_session_status : String → Facilitator → Response
unfolding get_session report
get_session_status session_id f = elim (get_session session_id f) [
  | none ↦ record { code = 404; body = text "Session not found or expired" }
  | some session ↦ record { code = 200; body = json (report session_id session session.status) }
]

pub record AgentListeningRequest : Type 0 where
  pub session_id : String
  pub endpoint : String
  pub agent_nat : Option NatInfoSer

-- The handler `agent_listening`.
unfoldable pub handle_agent_listening : AgentListeningRequest → Facilitator → Facilitator × Response
unfolding agent_listening nat_info_of_ser show_error
handle_agent_listening request f =
    let (f', result) =
      agent_listening request.session_id request.endpoint
        (Option.map nat_info_of_ser request.agent_nat) f in
    elim result [
      | ok _ ↦ (f', record { code = 200; body = text "Listening recorded" })
      | err e ↦ (f', record { code = 404; body = text ("Session not found: " +s show_error e) })
    ]

-- `cleanup_old_sessions`, with its timeout of five minutes.
unfoldable pub cleanup_old_sessions : (now_ms : ℕ) → Facilitator → Facilitator × String
unfolding cleanup_sessions
cleanup_old_sessions now_ms f =
    (cleanup_sessions now_ms (pos 300_000) f, "Session cleanup completed")

-- `report_connection_failure`
unfoldable pub report_connection_failure : String → Facilitator → Facilitator × Response
unfolding connection_failed show_error
report_connection_failure session_id f =
    let (f', result) = connection_failed session_id f in
    elim result [
      | ok endpoint ↦ (
        f',
        record {
          code = 503;
          body = json (
              ("session_id", str session_id)
              ∷ ("status", str "relayed")
              ∷ ("relay_endpoint", str endpoint)
              ∷ ("message", str "Direct connection failed, using relay")
              ∷ []);
        },
      )
      | err e ↦ (f', record { code = 404; body = text ("Session not found: " +s show_error e) })
    ]

-- `SimpleRelayServer::relay_to_agent` takes the bytes and does nothing with them; so the handler's
-- decoding of the data, by base64 or as it stands, does not show.
unfoldable pub relay_to_agent : String → List ℕ → Facilitator → Facilitator × Result (Unit {0})
relay_to_agent session_id bytes f = (f, ok tt)

abbrev decode_or_raw : (String → Option (List ℕ)) → (String → List ℕ) → String → List ℕ
decode_or_raw decode as_bytes payload = elim (decode payload) [
  | none ↦ as_bytes payload
  | some bytes ↦ bytes
]

pub record RelayDataRequest : Type 0 where
  pub data_text : String

-- The handler `relay_to_agent`, over the base64 decoder and the UTF-8 bytes of a text.
unfoldable pub handle_relay_to_agent :
    (String → Option (List ℕ))
    → (String → List ℕ)
    → String
    → RelayDataRequest
    → Facilitator
    → Facilitator × Response
unfolding relay_to_agent show_error
handle_relay_to_agent decode as_bytes session_id request f =
    let (f', result) =
      relay_to_agent session_id (decode_or_raw decode as_bytes request.data_text) f in
    elim result [
      | ok _ ↦ (f', record { code = 200; body = text "Data relayed" })
      | err e ↦ (f', record { code = 500; body = text ("Relay error: " +s show_error e) })
    ]
