-- ===== src/Tcp.antt =====
-- src/tcp/mod.rs: the connection facilitator. Its operations are functions from the old state to the
-- new one and a result; time, fresh ids, channels and the address syntax are arguments.
pub mod Session
pub mod Commands
pub mod Invariant
pub mod Decisions
pub mod Lifecycle
pub mod Reports
pub mod Cleanup
pub mod Http
use jrok_rs.Base.{
  ℕ, ◌+◌, ◌%◌, ◌^◌, Bool, true, false, Option, none, some, String, List, [], length, ltb,
  if◌then◌else◌,
}
use jrok_rs.Base.Int.{ℤ, as_i64, sub_i64, ltb_ℤ}
use jrok_rs.Base.Map.{StrMap, get, insert, retain}
use jrok_rs.Base.Text.{◌+s◌}
use jrok_rs.Agent.{AgentRegistry, AgentState, Channels, get_by_subdomain, send_message}
use jrok_rs.Db.{http, tcp}
use jrok_rs.Error.{Result, ok, err, bad_request, tunnel_not_found}
use jrok_rs.Nat.{
  NatInfo, NatType, open_nat, full_cone, restricted_cone, port_restricted_cone, symmetric, unknown,
  is_private_ip,
}
use jrok_rs.Nat.Discovery.{NatDetector, new_detector}
use jrok_rs.Net.{AddrSyntax, show_ip}
use jrok_rs.Proto.{Message, nat_info_to_ser}
use mathlib.Core.Option
use jrok_rs.Tcp.Session.{
  Tracker, ConnectionSession, finding_agent, hole_punching, ready, connected, relayed, mark_success,
  mark_failed, new_session, listening,
}

-- The registry is an argument of the operation that asks it; the hole puncher has no state.
pub record Facilitator : Type 0 where
  pub sessions : StrMap ConnectionSession
  pub nat_detector : NatDetector
  pub tracker : Tracker
  pub relays : StrMap String

-- `SimpleConnectionTracker::new`
abbrev pub new_tracker : Tracker
new_tracker = record { total_attempts = 0; direct_successes = 0; relay_used = 0 }

-- `SimpleRelayServer::new`
abbrev pub new_relays : StrMap String
new_relays = []

-- `SimpleUdpHolePuncher::punch_hole`, which only logs.
abbrev pub punch_hole : (local_addr remote_addr : String) → Result (Unit {0})
punch_hole local_addr remote_addr = ok tt

-- `ConnectionFacilitator::new`
unfoldable pub new : Facilitator
new = record {
  sessions = [];
  nat_detector = new_detector;
  tracker = new_tracker;
  relays = new_relays;
}

-- SimpleRelayServer::create_relay, on the map of relays.
unfoldable pub create_relay : StrMap String → String → StrMap String × Result String
unfolding insert
create_relay relays session_id =
    let relay_endpoint = "relay:" +s session_id in
    (insert session_id relay_endpoint relays, ok relay_endpoint)

-- The error of the operations on a session that is not there.
abbrev pub session_not_found {ℓ} : {A : Type ℓ} → Result A
session_not_found = err (bad_request "Session not found")

-- What is sent to the agent of a new session.
abbrev pub listen_request : ConnectionSession → Message
listen_request session =
    Message.tcp_listen_request session.session_id (Option.map nat_info_to_ser session.client_nat)

-- The session is stored before the agent is asked, and stays if the agent cannot be asked.
unfoldable pub request_connection :
    AddrSyntax
    → Channels
    → AgentRegistry
    → (session_id : String) (now_ms : ℕ) → (subdomain client_addr : String) → Facilitator
    → Facilitator × Result ConnectionSession
unfolding new_session insert
request_connection syn channels registry session_id now_ms subdomain client_addr f =
    elim (get_by_subdomain registry subdomain) [
      | none ↦ (f, err (tunnel_not_found subdomain))
      | some (agent_id, agent) ↦ elim agent.protocol [
        | http ↦ (f, err (bad_request "Agent is not configured for TCP"))
        | tcp ↦
            let session = new_session syn session_id now_ms subdomain client_addr agent_id in
            let f' = record f { sessions = insert session_id session f.sessions } in
            elim (send_message channels registry agent_id (listen_request session)) [
              | err e ↦ (f', err e)
              | ok _ ↦ (f', ok session)
            ]
      ]
    ]

unfoldable pub agent_listening :
    (session_id endpoint : String) → Option NatInfo → Facilitator → Facilitator × Result (Unit {0})
unfolding get insert listening
agent_listening session_id endpoint agent_nat f = elim (get session_id f.sessions) [
  | none ↦ (f, session_not_found)
  | some session ↦ (
    record f { sessions = insert session_id (listening session endpoint agent_nat) f.sessions },
    ok tt,
  )
]

unfoldable pub client_connected : String → Facilitator → Facilitator × Result (Unit {0})
unfolding get insert mark_success
client_connected session_id f = elim (get session_id f.sessions) [
  | none ↦ (f, session_not_found)
  | some session ↦ (
    record f {
      sessions = insert session_id (record session { status = connected }) f.sessions;
      tracker = mark_success f.tracker session.direct_connection;
    },
    ok tt,
  )
]

-- `create_relay` never fails.
unfoldable pub connection_failed : String → Facilitator → Facilitator × Result String
unfolding get insert create_relay mark_failed
connection_failed session_id f = elim (get session_id f.sessions) [
  | none ↦ (f, session_not_found)
  | some session ↦
      let (relays, relay_endpoint) = create_relay f.relays session_id in
      elim relay_endpoint [
        | err e ↦ (record f { relays = relays }, err e)
        | ok endpoint ↦ (
          record f {
            sessions = insert session_id (record session { status = relayed }) f.sessions;
            relays = relays;
            tracker = mark_failed f.tracker true;
          },
          ok endpoint,
        )
      ]
]

unfoldable pub get_session : String → Facilitator → Option ConnectionSession
unfolding get
get_session session_id f = get session_id f.sessions

-- `session.created_at > cutoff`
abbrev pub is_recent : ℤ → ConnectionSession → Bool
is_recent cutoff session = ltb_ℤ cutoff session.created_at

unfoldable pub cleanup_sessions : (now_ms : ℕ) → (timeout_ms : ℤ) → Facilitator → Facilitator
unfolding retain as_i64 sub_i64
cleanup_sessions now_ms timeout_ms f = record f {
  sessions = retain (λ _. is_recent (sub_i64 (as_i64 now_ms) timeout_ms)) f.sessions;
}

unfoldable pub session_count : Facilitator → ℕ
session_count f = length f.sessions

-- SimpleRelayServer::active_count
unfoldable pub active_count : Facilitator → ℕ
active_count f = length f.relays
