-- ===== src/Tcp/Reports.antt =====
-- What clients see of a facilitator: the polled status and the statistics.
use jrok_rs.Base.{
  ◌≡◌, refl, ◌∙◌, Bool, true, false, Option, none, some, String, List, [], ◌∷◌, if◌then◌else◌,
  Option-cases, inl, inr,
}
use jrok_rs.Base.{◌=s◌}
use jrok_rs.Base.Map.{get, get-insert_self}
use jrok_rs.Base.Text.{◌+s◌}
use jrok_rs.Net.{AddrSyntax}
use jrok_rs.Nat.{NatInfo}
use jrok_rs.Tcp.Session.{
  ConnectionSession, ConnectionStatus, needs_hole_punching, pending, finding_agent, requesting,
  hole_punching, ready, connected, relayed, failed, listening,
}
use jrok_rs.Tcp.{Facilitator, new, agent_listening, get_session}
use jrok_rs.Tcp.Invariant.{Inv, is_some, is_used}
use jrok_rs.Tcp.Invariant.Steps.{run-new-Inv}
use jrok_rs.Tcp.Commands.{Command, run}
use jrok_rs.Tcp.Http.{Json, str, bool, Body, text, json, report, ready_report, get_session_status}
use jrok_rs.Tcp.Http.Statistics.{Floats, get_stats}

is_text : String → Json → Bool
is_text value (str v) = v =s value
is_text value _ = false

says_member : String → String → List (String × Json) → Bool
unfolding is_text
says_member key value [] = false
says_member key value ((k, v) ∷ rest) =
    if k =s key then is_text value v else says_member key value rest

-- The response's object has this text under this key.
unfoldable pub says : String → String → Body → Bool
unfolding says_member
says key value (text t) = false
says key value (json members) = says_member key value members

report-live :
    (key : String) (s : ConnectionSession) (status : ConnectionStatus)
    → is_used status ≡ true
    → (status ≡ ready → is_some s.agent_endpoint ≡ true)
    → (says "status" "failed" (json (report key s status)) ≡ false)
      × (says "message" "Agent endpoint not yet available" (json (report key s status)) ≡ false)
unfolding says report ready_report
report-live key s pending u e = cc
report-live key s finding_agent u e = (refl, refl)
report-live key s requesting u e = cc
report-live key s hole_punching u e = (refl, refl)
report-live key s ready u e = ready_live key s s.agent_endpoint (e refl)
  where
    ready_live :
        (key : String) (s : ConnectionSession) (endpoint : Option String)
        → is_some endpoint ≡ true
        → (says "status" "failed" (json (ready_report key s endpoint)) ≡ false)
          × (says "message" "Agent endpoint not yet available" (json (ready_report key s endpoint))
              ≡ false)
    ready_live key s none h = cc
    ready_live key s (some endpoint) h = (refl, refl)
report-live key s connected u e = (refl, refl)
report-live key s relayed u e = (refl, refl)
report-live key s failed u e = cc

get_session_status-Inv :
    (session_id : String) (f : Facilitator)
    → Inv f
    → let body = (get_session_status session_id f).body in
      (says "status" "failed" body ≡ false)
      × (says "message" "Agent endpoint not yet available" body ≡ false)
unfolding get_session_status says
get_session_status-Inv session_id f v = elim (Option-cases (get session_id f.sessions)) [
  | inl missing ↦ rw (missing, get_session_status) (refl, refl)
  | inr found ↦
      let g = v.good session_id found.0 found.1 in
      rw (found.1, get_session_status)
        (report-live session_id found.0 found.0.status g.used g.ready_endpoint)
]

-- A client that polls a session never sees the status "failed", nor the message that the endpoint
-- of a ready session is not yet available, whatever calls came before.
get_session_status-live :
    (syn : AddrSyntax) (cs : List Command) (session_id : String)
    → let body = (get_session_status session_id (run syn cs new)).body in
      (says "status" "failed" body ≡ false)
      × (says "message" "Agent endpoint not yet available" body ≡ false)
get_session_status-live syn cs session_id =
    get_session_status-Inv session_id (run syn cs new) (run-new-Inv syn cs)

get_session_status_found :
    (session_id : String) (f : Facilitator) (s : ConnectionSession)
    → get session_id f.sessions ≡ some s
    → get_session_status session_id f
      ≡ record { code = 200; body = json (report session_id s s.status) }
unfolding get_session_status
get_session_status_found session_id f s found = rw (found, get_session_status) refl

agent_listening-stores :
    (f : Facilitator) (session_id endpoint : String) (agent_nat : Option NatInfo)
    (s : ConnectionSession)
    → get session_id f.sessions ≡ some s
    → get session_id (agent_listening session_id endpoint agent_nat f).0.sessions
      ≡ some (listening s endpoint agent_nat)
unfolding agent_listening
agent_listening-stores f session_id endpoint agent_nat s found =
    rw (found, agent_listening)
      (get-insert_self session_id (listening s endpoint agent_nat) f.sessions)

-- Once the agent of a stored session has reported where it listens, and no hole punching is needed,
-- a poll returns the status "ready" with that endpoint.
pub poll-agent_listening :
    (f : Facilitator) (session_id endpoint : String) (agent_nat : Option NatInfo)
    (s : ConnectionSession)
    → get_session session_id f ≡ some s
    → needs_hole_punching s.client_nat agent_nat ≡ false
    → get_session_status session_id (agent_listening session_id endpoint agent_nat f).0 ≡ record {
      code = 200;
      body = json (
          ("session_id", str session_id)
          ∷ ("status", str "ready")
          ∷ ("agent_endpoint", str endpoint)
          ∷ ("message", str "Connect directly to this endpoint")
          ∷ ("instruction", str ("Connect directly to: " +s endpoint))
          ∷ ("direct_connection", bool s.direct_connection)
          ∷ []);
    }
unfolding get_session report listening
poll-agent_listening f session_id endpoint agent_nat s found no_punch =
    get_session_status_found session_id (agent_listening session_id endpoint agent_nat f).0
      (listening s endpoint agent_nat)
      (agent_listening-stores f session_id endpoint agent_nat s found)
    ∙ rw no_punch refl

-- After any calls the statistics report no attempt and the rate 0.0.
pub get_stats-run :
    (floats : Floats) (syn : AddrSyntax) (cs : List Command)
    → let stats = get_stats floats (run syn cs new).tracker in
      (stats.0 ≡ 0) × (stats.3 ≡ floats.zero)
unfolding get_stats
get_stats-run floats syn cs = (v.attempts, rw v.attempts refl)
  where
    v : Inv (run syn cs new)
    v = run-new-Inv syn cs
