-- ===== src/Tcp/Decisions.antt =====
-- The decisions of the facilitator, direct connections and hole punching; and agents that cannot be
-- asked.
use jrok_rs.Base.{ℕ, ◌≡◌, ◌≢◌, ◌↔◌, refl, true, not, Option, none, some, String, arith}
use jrok_rs.Base.Map.{get, get-insert_self}
use jrok_rs.Base.Text.{◌+s◌}
use jrok_rs.Agent.{AgentRegistry, AgentState, Channels, send_message}
use jrok_rs.Error.{ok, err, internal}
use jrok_rs.Nat.{NatInfo, open_nat, unknown, is_private_ip}
use jrok_rs.Net.{AddrSyntax, SocketAddr}
use jrok_rs.Proto.{Message}
use jrok_rs.Tcp.Session.{ConnectionSession, hole_punching, ready, new_session, listening}
use jrok_rs.Tcp.{Facilitator, agent_listening, get_session}
use jrok_rs.Tcp.Invariant.{Inv, client_type}

-- For a client whose socket address the server has seen, the session says direct exactly when its
-- address is not private.
pub new_session-direct_connection :
    (syn : AddrSyntax) (session_id : String) (now_ms : ℕ) (subdomain agent_id : String)
    (addr : SocketAddr)
    → (new_session syn session_id now_ms subdomain
        (syn.show_socket_addr addr)
        agent_id).direct_connection
      ≡ not (is_private_ip addr.ip)
unfolding new_session
new_session-direct_connection syn session_id now_ms subdomain agent_id addr =
    ground (arith, syn.parse-show addr)

-- When an agent reports that it listens for a session that a facilitator in its invariant holds, the
-- call succeeds, the session has the reported endpoint and NAT, and it goes to hole punching exactly
-- if the NAT type of its client is known to be `unknown`, the type of private addresses, and the
-- agent's NAT is reported and not open; otherwise it is ready.
pub agent_listening_lem :
    (f : Facilitator) (session_id endpoint : String) (agent_nat : Option NatInfo)
    (s : ConnectionSession)
    → Inv f
    → get_session session_id f ≡ some s
    → let after = agent_listening session_id endpoint agent_nat f in
      (s' : ConnectionSession) × (get_session session_id after.0 ≡ some s')
      × (after.1 ≡ ok tt)
      × (s'.agent_endpoint ≡ some endpoint)
      × (s'.agent_nat ≡ agent_nat)
      × ((s'.status ≡ hole_punching) ↔ (
          (client_type s.client_nat ≡ some unknown)
          × (client_type agent_nat ≢ some open_nat)
          × (client_type agent_nat ≢ none)))
      × ((s'.status ≡ hole_punching → ⊥) → s'.status ≡ ready)
unfolding agent_listening get_session
agent_listening_lem f session_id endpoint agent_nat s v found = (
  listening s endpoint agent_nat,
  rw (found, agent_listening)
      (get-insert_self session_id (listening s endpoint agent_nat) f.sessions),
  rw (found, agent_listening) refl,
  refl,
  refl,
  ground (arith, (v.good session_id s found).nat_known),
  λ no. ground arith,
)

pub send_message-dropped :
    (channels : Channels) (registry : AgentRegistry) (agent_id : String) (agent : AgentState)
    (message : Message)
    → get agent_id registry.agents ≡ some agent
    → agent.tx.receiver_dropped ≡ true
    → (e : String) × (send_message channels registry agent_id message
        ≡ err (internal ("Failed to send message: " +s e)))
unfolding send_message
send_message-dropped channels registry agent_id agent message found dropped =
    let refusal = channels.refuses agent.tx message dropped in
    (refusal.0, rw (found, send_message, refusal.1) refl)
