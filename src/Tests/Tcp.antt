-- ===== src/Tests/Tcp.antt =====
-- Instances of the theorems on src/tcp/mod.rs and src/agent/registry.rs.
use jrok_rs.Base.{◌≡◌, ◌≢◌, ◌↔◌, refl, false, some, none, List, [], ◌∷◌, arith}
use jrok_rs.Base.Int.{pos, as_i64}
use jrok_rs.Agent.{get_by_subdomain, send_message}
use jrok_rs.Error.{ok}
use jrok_rs.Nat.{NatInfo, open_nat, unknown, symmetric}
use jrok_rs.Nat.{is_private_ip}
use jrok_rs.Tcp.Lifecycle.{Lives, SameRequest, run-Lives}
use jrok_rs.Tcp.Session.{relayed, ConnectionSession, hole_punching, ready, new_session}
use jrok_rs.Tcp.{Facilitator, new, agent_listening, get_session, cleanup_sessions}
use jrok_rs.Tcp.Commands.{Command, requests, listens, connects, fails_over, cleans, run}
use jrok_rs.Tcp.Invariant.{Inv, client_type}
use jrok_rs.Tcp.Invariant.Steps.{run-new-Inv}
use jrok_rs.Tcp.Decisions.{agent_listening_lem}
use jrok_rs.Tcp.Cleanup.{cleanup_sessions_lem}
use jrok_rs.Tests.Fixtures.{strokes_syntax, channels, private_text, agent, registry_of}

-- A client behind a NAT asks for the agent.
abbrev request : Command
request = requests channels (registry_of agent) "s1" 1000 "ssh" private_text

abbrev session : ConnectionSession
session = new_session strokes_syntax "s1" 1000 "ssh" private_text "agent-1"

abbrev asked : Facilitator
asked = run strokes_syntax (request ∷ []) new

asked_found : get_session "s1" asked ≡ some session
unfolding run new get_session channels get_by_subdomain send_message
asked_found = refl

asked-Inv : Inv asked
asked-Inv = run-new-Inv strokes_syntax (request ∷ [])

abbrev agent_nat : NatInfo
agent_nat = record {
  local_addr = "192.168.0.2:22";
  public_ip = "198.51.100.7";
  public_port = 4022;
  nat_type = symmetric;
  hairpinning = false;
}

-- The agent's NAT needs hole punching; the client falls back to the relay; a later cleanup.
abbrev others : List Command
others =
    listens "s1" "198.51.100.7:4022" (some agent_nat)
    ∷ connects "s2"
    ∷ fails_over "s1"
    ∷ cleans 2000 (pos 300_000)
    ∷ []

abbrev script : List Command
script = request ∷ others

abbrev relayed_session : ConnectionSession
relayed_session = record session {
  agent_endpoint = some "198.51.100.7:4022";
  agent_nat = some agent_nat;
  status = relayed;
}

relayed_found : get_session "s1" (run strokes_syntax others asked) ≡ some relayed_session
unfolding run new get_session channels get_by_subdomain send_message strokes_syntax is_private_ip
relayed_found = refl

run-Lives_example :
    (first : ConnectionSession) × (get_session "s1" asked ≡ some first)
    × Lives relayed_session first
    × SameRequest relayed_session first
run-Lives_example =
    run-Lives strokes_syntax "s1" others asked relayed_session asked-Inv (tt, (tt, (tt, (tt, tt))))
      relayed_found

run-new-Inv_example : Inv (run strokes_syntax script new)
run-new-Inv_example = run-new-Inv strokes_syntax script

agent_listening_lem_example :
    let after = agent_listening "s1" "198.51.100.7:4022" (some agent_nat) asked in
    (s' : ConnectionSession) × (get_session "s1" after.0 ≡ some s')
    × (after.1 ≡ ok tt)
    × (s'.agent_endpoint ≡ some "198.51.100.7:4022")
    × (s'.agent_nat ≡ some agent_nat)
    × ((s'.status ≡ hole_punching) ↔ (
        (client_type session.client_nat ≡ some unknown)
        × (client_type (some agent_nat) ≢ some open_nat)
        × (client_type (some agent_nat) ≢ none)))
    × ((s'.status ≡ hole_punching → ⊥) → s'.status ≡ ready)
agent_listening_lem_example =
    agent_listening_lem asked "s1" "198.51.100.7:4022" (some agent_nat) session asked-Inv
      asked_found

-- Five minutes after the request the session is gone.
cleanup_sessions_lem_example :
    let f' = cleanup_sessions 301_000 (pos 300_000) asked in
    (get_session "s1" f' ≡ none) × (f'.relays ≡ asked.relays) × (f'.tracker ≡ asked.tracker)
unfolding new_session as_i64
cleanup_sessions_lem_example =
    cleanup_sessions_lem asked 301_000 300_000 1000 "s1" session asked-Inv (omega arith)
      (omega arith) asked_found refl
