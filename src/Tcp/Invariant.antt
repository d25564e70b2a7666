-- ===== src/Tcp/Invariant.antt =====
-- The invariant of a facilitator, and the sessions that satisfy it.
pub mod Steps
use mathlib.Core.Path.{subst}
use jrok_rs.Base.{
  ℕ, ◌≡◌, ◌≢◌, refl, sym, ◌∙◌, ◌⊎◌, inl, inr, Bool, true, false, Option, none, some, String, List,
  [], ◌∷◌, arith, eq_iff, if◌then◌else◌, Option-cases, Bool-cases,
}
use jrok_rs.Base.{◌=s◌}
use jrok_rs.Base.Int.{ℤ, as_i64, sub_i64}
use jrok_rs.Base.Map.{
  get, insert, Unique, keep, get-insert, get-insert_self, get-insert_ne, get-retain, insert-Unique,
  retain-Unique,
}
use jrok_rs.Base.Text.{◌+s◌}
use jrok_rs.Agent.{AgentRegistry, AgentState, Channels, get_by_subdomain, send_message}
use jrok_rs.Nat.{NatInfo, NatType, open_nat, unknown}
use jrok_rs.Net.{AddrSyntax}
use jrok_rs.Tcp.Session.{
  ConnectionStatus, pending, finding_agent, requesting, hole_punching, ready, connected, relayed,
  failed, ConnectionSession, new_session, listening, needs_hole_punching, detect_client_nat,
  can_use_direct_connection,
}
use jrok_rs.Tcp.{
  Facilitator, new, request_connection, agent_listening, client_connected, connection_failed,
  cleanup_sessions, create_relay, is_recent,
}
use jrok_rs.Tcp.Commands.{Command, requests, listens, connects, fails_over, cleans, step, run}

-- The statuses that the facilitator gives to a session.
abbrev pub is_used : ConnectionStatus → Bool
is_used pending = false
is_used requesting = false
is_used failed = false
is_used _ = true

abbrev pub is_some {ℓ} : {A : Type ℓ} → Option A → Bool
is_some none = false
is_some (some a) = true

-- A client is known to have no NAT, or nothing is known of its NAT.
abbrev pub client_type : Option NatInfo → Option NatType
client_type none = none
client_type (some nat) = some nat.nat_type

-- What holds of a session under its id, given the map of relays.
pub record GoodSession (key : String) (relay : Option String) (s : ConnectionSession) : Type 0 where
  pub keyed : s.session_id ≡ key
  pub used : is_used s.status ≡ true
  pub ready_endpoint : s.status ≡ ready → is_some s.agent_endpoint ≡ true
  pub punching_endpoint : s.status ≡ hole_punching → is_some s.agent_endpoint ≡ true
  pub punching_needed :
      s.status ≡ hole_punching → needs_hole_punching s.client_nat s.agent_nat ≡ true
  pub relayed_known : s.status ≡ relayed → relay ≡ some ("relay:" +s key)
  pub nat_known :
      (client_type s.client_nat ≡ none)
      ⊎ (client_type s.client_nat ≡ some open_nat)
      ⊎ (client_type s.client_nat ≡ some unknown)
  pub direct_known : s.direct_connection ≡ can_use_direct_connection s.client_nat

pub record Inv (f : Facilitator) : Type 0 where
  pub unique : Unique f.sessions
  pub good :
      (key : String) (s : ConnectionSession)
      → get key f.sessions ≡ some s
      → GoodSession key (get key f.relays) s
  pub attempts : f.tracker.total_attempts ≡ 0

pub new-Inv : Inv new
unfolding new get
new-Inv = record { unique = tt; good = λ key s h. cc; attempts = refl }

pub new_session-Good :
    (syn : AddrSyntax) (session_id : String) (now_ms : ℕ) (subdomain client_addr agent_id : String)
    (relay : Option String)
    → GoodSession session_id relay
        (new_session syn session_id now_ms subdomain client_addr agent_id)
unfolding new_session
new_session-Good syn session_id now_ms subdomain client_addr agent_id relay = ground arith

pub listening-Good :
    (key : String) (relay : Option String) (s : ConnectionSession) (endpoint : String)
    (agent_nat : Option NatInfo)
    → GoodSession key relay s
    → GoodSession key relay (listening s endpoint agent_nat)
unfolding listening
listening-Good key relay s endpoint agent_nat g = ground arith

pub connected-Good :
    (key : String) (relay : Option String) (s : ConnectionSession)
    → GoodSession key relay s
    → GoodSession key relay (record s { status = connected })
connected-Good key relay s g = ground arith

pub relayed-Good :
    (key : String) (relay : Option String) (s : ConnectionSession)
    → GoodSession key relay s
    → GoodSession key (some ("relay:" +s key)) (record s { status = relayed })
relayed-Good key relay s g = ground arith
