-- ===== src/Tcp/Cleanup.antt =====
-- What the periodic cleanup keeps, and what no call ever removes.
use jrok_rs.Base.{
  ℕ, ◌+◌, ◌≤◌, ◌<◌, ◌^◌, ◌≡◌, refl, ◌∙◌, ap, none, some, String, List, [], ◌∷◌, arith, ltb, length,
  if◌then◌else◌,
}
use jrok_rs.Base.Int.{pos, as_i64, sub_i64, as_i64_small, ltb_ℤ-sub_i64}
use jrok_rs.Base.Map.{get-retain, length-le-insert}
use jrok_rs.Base.Text.{◌+s◌}
use jrok_rs.Agent.{AgentRegistry, Channels}
use jrok_rs.Net.{AddrSyntax}
use jrok_rs.Tcp.Session.{ConnectionSession}
use jrok_rs.Tcp.{
  Facilitator, cleanup_sessions, get_session, active_count, request_connection, connection_failed,
  is_recent,
}
use jrok_rs.Tcp.Invariant.{Inv}
use jrok_rs.Tcp.Commands.{Command, requests, listens, connects, fails_over, cleans, step, run}

-- For a clock and a timeout below 2^63 milliseconds, the cleanup of a facilitator in its invariant
-- keeps a session created at the time t exactly while now < t + timeout, and keeps it as it is;
-- relays and counters stay whatever their age.
pub cleanup_sessions_lem :
    (f : Facilitator) (now_ms timeout_ms t : ℕ) (session_id : String) (s : ConnectionSession)
    → Inv f
    → now_ms < 2 ^ 63
    → timeout_ms < 2 ^ 63
    → get_session session_id f ≡ some s
    → s.created_at ≡ pos t
    → let f' = cleanup_sessions now_ms (pos timeout_ms) f in
      (get_session session_id f' ≡ (if ltb now_ms (t + timeout_ms) then some s else none))
      × (f'.relays ≡ f.relays)
      × (f'.tracker ≡ f.tracker)
unfolding cleanup_sessions get_session
cleanup_sessions_lem f now_ms timeout_ms t session_id s v n m found created = (
  get-retain (is_recent (sub_i64 (as_i64 now_ms) (pos timeout_ms))) session_id f.sessions v.unique
      ∙ rw (found, as_i64_small now_ms n, created, ltb_ℤ-sub_i64 now_ms timeout_ms t n m) refl,
  refl,
  refl,
)

relays-request_connection :
    (syn : AddrSyntax) (channels : Channels) (registry : AgentRegistry) (session_id : String)
    (now_ms : ℕ) (subdomain client_addr : String) (f : Facilitator)
    → (request_connection syn channels registry session_id now_ms subdomain client_addr f).0.relays
      ≡ f.relays
unfolding request_connection
relays-request_connection syn channels registry session_id now_ms subdomain client_addr f =
    ground arith

active_count-connection_failed :
    (session_id : String) (f : Facilitator)
    → length f.relays ≤ length (connection_failed session_id f).0.relays
unfolding connection_failed
active_count-connection_failed session_id f =
    ground (arith, length-le-insert session_id ("relay:" +s session_id) f.relays)

-- No call removes a relay.
active_count-step :
    (syn : AddrSyntax) (c : Command) (f : Facilitator)
    → active_count f ≤ active_count (step syn c f)
unfolding step active_count
active_count-step syn (requests channels registry session_id now_ms subdomain client_addr) f =
    omega (
      arith,
      ap length (
          relays-request_connection syn channels registry session_id now_ms subdomain client_addr
            f),
    )
active_count-step syn (listens session_id endpoint agent_nat) f = ground arith
active_count-step syn (connects session_id) f = ground arith
active_count-step syn (fails_over session_id) f = active_count-connection_failed session_id f
active_count-step syn (cleans now_ms timeout_ms) f = omega arith

-- Relays are never taken down: over any sequence of calls, cleanups included, the number of active
-- relays does not fall.
pub active_count-run :
    (syn : AddrSyntax) (cs : List Command) (f : Facilitator)
    → active_count f ≤ active_count (run syn cs f)
unfolding run
active_count-run syn [] f = omega arith
active_count-run syn (c ∷ cs) f =
    omega (arith, active_count-step syn c f, active_count-run syn cs (step syn c f))
