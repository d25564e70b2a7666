-- ===== src/Tcp/Commands.antt =====
-- The calls that change a facilitator, and runs of them in any order.
use jrok_rs.Base.{ℕ, Option, String, List, [], ◌∷◌}
use jrok_rs.Base.Int.{ℤ}
use jrok_rs.Agent.{AgentRegistry, Channels}
use jrok_rs.Nat.{NatInfo}
use jrok_rs.Net.{AddrSyntax}
use jrok_rs.Tcp.{
  Facilitator, request_connection, agent_listening, client_connected, connection_failed,
  cleanup_sessions,
}

-- A call with its arguments. A request carries the registry and the channels as it finds them, the
-- id that it draws and the clock.
pub data Command : Type 0 where
  requests :
      Channels
      → AgentRegistry
      → (session_id : String) (now_ms : ℕ) (subdomain client_addr : String) → Command
  listens : (session_id endpoint : String) → Option NatInfo → Command
  connects fails_over : (session_id : String) → Command
  cleans : (now_ms : ℕ) (timeout_ms : ℤ) → Command

-- The write lock on the sessions makes each call one step.
unfoldable pub step : AddrSyntax → Command → Facilitator → Facilitator
unfolding request_connection agent_listening client_connected connection_failed cleanup_sessions
step syn (requests channels registry session_id now_ms subdomain client_addr) f =
    (request_connection syn channels registry session_id now_ms subdomain client_addr f).0
step syn (listens session_id endpoint agent_nat) f =
    (agent_listening session_id endpoint agent_nat f).0
step syn (connects session_id) f = (client_connected session_id f).0
step syn (fails_over session_id) f = (connection_failed session_id f).0
step syn (cleans now_ms timeout_ms) f = cleanup_sessions now_ms timeout_ms f

unfoldable pub run : AddrSyntax → List Command → Facilitator → Facilitator
unfolding step
run syn [] f = f
run syn (c ∷ cs) f = run syn cs (step syn c f)
