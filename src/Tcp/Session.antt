-- ===== src/Tcp/Session.antt =====
-- src/tcp/mod.rs: the counters, the connection session, and the decisions on NAT information.
use jrok_rs.Base.{ℕ, ◌+◌, ◌%◌, ◌^◌, Bool, true, false, Option, none, some, String, if◌then◌else◌}
use jrok_rs.Base.Int.{ℤ, as_i64}
use jrok_rs.Nat.{
  NatInfo, NatType, open_nat, full_cone, restricted_cone, port_restricted_cone, symmetric, unknown,
  is_private_ip,
}
use jrok_rs.Net.{AddrSyntax, show_ip}

-- SimpleConnectionTracker: three counters of type usize.
pub record Tracker : Type 0 where
  pub total_attempts : ℕ
  pub direct_successes : ℕ
  pub relay_used : ℕ

-- `fetch_add(1)` on an AtomicUsize.
abbrev pub fetch_add_one : ℕ → ℕ
fetch_add_one n = (n + 1) % 2 ^ 64

unfoldable pub track_attempt : Tracker → Tracker
track_attempt t = record t { total_attempts = fetch_add_one t.total_attempts }

unfoldable pub mark_success : Tracker → Bool → Tracker
mark_success t is_direct =
    if is_direct
    then record t { direct_successes = fetch_add_one t.direct_successes }
    else record t { relay_used = fetch_add_one t.relay_used }

-- It only logs.
unfoldable pub mark_failed : Tracker → Bool → Tracker
mark_failed t relay = t

pub data ConnectionStatus : Type 0 where
  pending finding_agent requesting hole_punching ready connected relayed failed : ConnectionStatus

pub record ConnectionSession : Type 0 where
  pub session_id : String
  pub subdomain : String
  pub client_addr : String
  pub agent_id : String
  pub agent_endpoint : Option String
  pub status : ConnectionStatus
  pub created_at : ℤ
  pub client_nat : Option NatInfo
  pub agent_nat : Option NatInfo
  pub direct_connection : Bool

unfoldable pub detect_client_nat : AddrSyntax → String → Option NatInfo
detect_client_nat syn client_addr = elim (syn.parse_socket_addr client_addr) [
  | none ↦ none
  | some addr ↦
      if is_private_ip addr.ip
      then some (record {
        local_addr = client_addr;
        public_ip = "0.0.0.0";
        public_port = 0;
        nat_type = unknown;
        hairpinning = false;
      })
      else some (record {
        local_addr = client_addr;
        public_ip = show_ip syn addr.ip;
        public_port = addr.port;
        nat_type = open_nat;
        hairpinning = false;
      })
]

direct_type : NatType → Bool
direct_type open_nat = true
direct_type full_cone = true
direct_type restricted_cone = true
direct_type port_restricted_cone = true
direct_type symmetric = false
direct_type unknown = false

unfoldable pub can_use_direct_connection : Option NatInfo → Bool
unfolding direct_type
can_use_direct_connection none = false
can_use_direct_connection (some nat) = direct_type nat.nat_type

punch_types : NatType → NatType → Bool
punch_types open_nat _ = false
punch_types _ open_nat = false
punch_types symmetric symmetric = true
punch_types _ _ = true

-- On the NAT information of the two sides of a session.
unfoldable pub needs_hole_punching : Option NatInfo → Option NatInfo → Bool
unfolding punch_types
needs_hole_punching (some client) (some agent) = punch_types client.nat_type agent.nat_type
needs_hole_punching _ _ = false

-- The session that a request creates.
unfoldable pub new_session :
    AddrSyntax
    → (session_id : String) (now_ms : ℕ) (subdomain client_addr agent_id : String)
    → ConnectionSession
unfolding detect_client_nat can_use_direct_connection as_i64
new_session syn session_id now_ms subdomain client_addr agent_id =
    let client_nat = detect_client_nat syn client_addr in
    record {
      session_id = session_id;
      subdomain = subdomain;
      client_addr = client_addr;
      agent_id = agent_id;
      agent_endpoint = none;
      status = finding_agent;
      created_at = as_i64 now_ms;
      client_nat = client_nat;
      agent_nat = none;
      direct_connection = can_use_direct_connection client_nat;
    }

-- The session once its agent listens.
unfoldable pub listening : ConnectionSession → String → Option NatInfo → ConnectionSession
unfolding needs_hole_punching
listening session endpoint agent_nat = record session {
  agent_endpoint = some endpoint;
  agent_nat = agent_nat;
  status = if needs_hole_punching session.client_nat agent_nat then hole_punching else ready;
}
