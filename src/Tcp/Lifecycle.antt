-- ===== src/Tcp/Lifecycle.antt =====
-- The life of a session: what the calls of the facilitator may make of it.
use mathlib.Core.Path.{subst}
use jrok_rs.Base.{
  ℕ, ◌≡◌, ◌≢◌, refl, sym, ap, ◌∙◌, ◌⊎◌, inl, inr, true, false, Option, none, some, String, List, [],
  ◌∷◌, arith, eq_iff, Option-cases, Bool-cases,
}
use jrok_rs.Base.{◌=s◌}
use jrok_rs.Base.Int.{as_i64, sub_i64}
use jrok_rs.Base.Map.{StrMap, get, insert, get-insert, get-insert_ne, get-retain}
use jrok_rs.Agent.{AgentRegistry, Channels, get_by_subdomain}
use jrok_rs.Nat.{NatInfo}
use jrok_rs.Net.{AddrSyntax}
use jrok_rs.Tcp.Session.{
  connected, relayed, hole_punching, ready, ConnectionSession, listening, needs_hole_punching,
}
use jrok_rs.Tcp.{
  Facilitator, request_connection, agent_listening, client_connected, connection_failed,
  cleanup_sessions, get_session, is_recent,
}
use jrok_rs.Tcp.Commands.{Command, requests, listens, connects, fails_over, cleans, step, run}
use jrok_rs.Tcp.Invariant.{Inv}
use jrok_rs.Tcp.Invariant.Steps.{step-Inv, request_found, keep-some}

-- One move: its agent reports where it listens, its client reports that it is connected, or the
-- connection fails.
pub data Moves (s : ConnectionSession) : ConnectionSession → Type 0 where
  punches :
      (endpoint : String) (agent_nat : Option NatInfo)
      → needs_hole_punching s.client_nat agent_nat ≡ true
      → Moves s (record s {
        agent_endpoint = some endpoint;
        agent_nat = agent_nat;
        status = hole_punching;
      })
  gets_ready :
      (endpoint : String) (agent_nat : Option NatInfo)
      → needs_hole_punching s.client_nat agent_nat ≡ false
      → Moves s (record s { agent_endpoint = some endpoint; agent_nat = agent_nat; status = ready })
  succeeds : Moves s (record s { status = connected })
  falls_back : Moves s (record s { status = relayed })

-- Any number of moves.
pub data Lives (last : ConnectionSession) : ConnectionSession → Type 0 where
  rests : Lives last last
  goes_on : {s t : ConnectionSession} → Moves s t → Lives last t → Lives last s

-- What a request has fixed.
abbrev pub SameRequest : ConnectionSession → ConnectionSession → Type 0
SameRequest s t =
    (s.session_id ≡ t.session_id)
    × (s.subdomain ≡ t.subdomain)
    × (s.client_addr ≡ t.client_addr)
    × (s.agent_id ≡ t.agent_id)
    × (s.created_at ≡ t.created_at)
    × (s.client_nat ≡ t.client_nat)
    × (s.direct_connection ≡ t.direct_connection)

Lives-SameRequest : {last s : ConnectionSession} → Lives last s → SameRequest last s
Lives-SameRequest rests = (refl, refl, refl, refl, refl, refl, refl)
Lives-SameRequest (goes_on (punches endpoint agent_nat needed) later) = Lives-SameRequest later
Lives-SameRequest (goes_on (gets_ready endpoint agent_nat direct) later) = Lives-SameRequest later
Lives-SameRequest (goes_on succeeds later) = Lives-SameRequest later
Lives-SameRequest (goes_on falls_back later) = Lives-SameRequest later

listening-Moves :
    (s : ConnectionSession) (endpoint : String) (agent_nat : Option NatInfo)
    → Moves s (listening s endpoint agent_nat)
unfolding listening
listening-Moves s endpoint agent_nat =
    elim (Bool-cases (needs_hole_punching s.client_nat agent_nat)) [
      | inl needed ↦ rw needed (punches endpoint agent_nat needed)
      | inr direct ↦ rw direct (gets_ready endpoint agent_nat direct)
    ]

-- A session that is stored was stored before, as it is or one move earlier.
Moved : String → StrMap ConnectionSession → ConnectionSession → Type 0
Moved key before s = (s' : ConnectionSession) × (get key before ≡ some s') × ((s' ≡ s) ⊎ Moves s' s)

kept :
    (key : String) (before : StrMap ConnectionSession) (s : ConnectionSession)
    → get key before ≡ some s
    → Moved key before s
unfolding Moved
kept key before s found = (s, found, inl refl)

insert-Moved :
    (key session_id : String) (before : StrMap ConnectionSession) (s s' after : ConnectionSession)
    → get session_id before ≡ some s
    → Moves s s'
    → get key (insert session_id s' before) ≡ some after
    → Moved key before after
unfolding Moved
insert-Moved key session_id before s s' after found move stored =
    elim (Bool-cases (session_id =s key)) [
      | inl hit ↦
          let same : session_id ≡ key = (eq_iff session_id key).0 hit in
          let written : s' ≡ after = ground (arith, get-insert session_id key s' before) in
          (
            s,
            subst (λ (k : String). get k before ≡ some s) same found,
            inr (subst (Moves s) written move),
          )
      | inr miss ↦ (after, ground (arith, get-insert session_id key s' before), inl refl)
    ]

-- A call that moves the session under an id, if there is one.
module _ (key session_id : String) (before after : StrMap ConnectionSession)
    (next : ConnectionSession → ConnectionSession) (s : ConnectionSession)
    (moves : (s : ConnectionSession) → Moves s (next s))
    (missing : get session_id before ≡ none → after ≡ before)
    (found : (s : ConnectionSession)
      → get session_id before ≡ some s
      → after ≡ insert session_id (next s) before) where
  update-Moved : get key after ≡ some s → Moved key before s
  update-Moved stored = elim (Option-cases (get session_id before)) [
    | inl none_there ↦ kept key before s (sym (ap (get key) (missing none_there)) ∙ stored)
    | inr (s', there) ↦
        insert-Moved key session_id before s' (next s') s there (moves s')
          (sym (ap (get key) (found s' there)) ∙ stored)
  ]

request_missing :
    (syn : AddrSyntax) (channels : Channels) (registry : AgentRegistry) (session_id : String)
    (now_ms : ℕ) (subdomain client_addr : String) (f : Facilitator)
    → get_by_subdomain registry subdomain ≡ none
    → (request_connection syn channels registry session_id now_ms subdomain client_addr f).0 ≡ f
unfolding request_connection
request_missing syn channels registry session_id now_ms subdomain client_addr f missing =
    rw (missing, request_connection) refl

-- The call does not draw the id.
abbrev pub IsOther : String → Command → Type 0
IsOther key (requests channels registry session_id now_ms subdomain client_addr) = session_id ≢ key
IsOther key _ = Unit

abbrev pub AllOther : String → List Command → Type 0
AllOther key [] = Unit
AllOther key (c ∷ cs) = IsOther key c × AllOther key cs

module _ (syn : AddrSyntax) (key : String) (f : Facilitator) (v : Inv f)
    (after : ConnectionSession) where
  step-Moved :
      (c : Command)
      → IsOther key c
      → get key (step syn c f).sessions ≡ some after
      → Moved key f.sessions after
  unfolding step agent_listening client_connected connection_failed cleanup_sessions
  step-Moved (requests channels registry session_id now_ms subdomain client_addr) other stored =
      elim (Option-cases (get_by_subdomain registry subdomain)) [
        | inl missing ↦ kept key f.sessions after (
            sym (
              ap (λ (f' : Facilitator). get key f'.sessions)
                (request_missing syn channels registry session_id now_ms subdomain client_addr f
                  missing))
            ∙ stored)
        | inr (agent, found) ↦
            elim (request_found syn channels registry session_id now_ms subdomain client_addr f
              agent found) [
                | inl same ↦
                    kept key f.sessions after
                      (sym (ap (λ (f' : Facilitator). get key f'.sessions) same) ∙ stored)
                | inr new ↦ kept key f.sessions after (
                    sym (get-insert_ne session_id key _ f.sessions other)
                    ∙ sym (ap (λ (f' : Facilitator). get key f'.sessions) new)
                    ∙ stored)
              ]
      ]
  step-Moved (listens session_id endpoint agent_nat) other stored =
      update-Moved key session_id f.sessions
        ((agent_listening session_id endpoint agent_nat f).0.sessions)
        (λ s. listening s endpoint agent_nat) after (λ s. listening-Moves s endpoint agent_nat)
        (λ missing. rw (missing, agent_listening) refl)
        (λ s found. rw (found, agent_listening) refl) stored
  step-Moved (connects session_id) other stored =
      update-Moved key session_id f.sessions ((client_connected session_id f).0.sessions)
        (λ s. record s { status = connected }) after (λ s. succeeds)
        (λ missing. rw (missing, client_connected) refl)
        (λ s found. rw (found, client_connected) refl) stored
  step-Moved (fails_over session_id) other stored =
      update-Moved key session_id f.sessions ((connection_failed session_id f).0.sessions)
        (λ s. record s { status = relayed }) after (λ s. falls_back)
        (λ missing. rw (missing, connection_failed) refl)
        (λ s found. rw (found, connection_failed) refl) stored
  step-Moved (cleans now_ms timeout_ms) other stored = kept key f.sessions after (
      keep-some _ (get key f.sessions) after (
        sym (get-retain (is_recent (sub_i64 (as_i64 now_ms) timeout_ms)) key f.sessions v.unique)
        ∙ stored))

-- Over any calls on a facilitator in its invariant of which none draws the id anew: a session that
-- is stored under the id at the end was stored under it at the beginning, it has come from there by
-- moves (to hole punching if that is needed for what its agent has reported and else to ready, to
-- connected, or to relayed), and what its request has fixed is as it was.
pub run-Lives :
    (syn : AddrSyntax) (key : String) (cs : List Command) (f : Facilitator)
    (last : ConnectionSession)
    → Inv f
    → AllOther key cs
    → get_session key (run syn cs f) ≡ some last
    → (first : ConnectionSession) × (get_session key f ≡ some first)
      × Lives last first
      × SameRequest last first
unfolding run get_session Moved
run-Lives syn key [] f last v others stored =
    (last, stored, rests, Lives-SameRequest {last = last} {s = last} rests)
run-Lives syn key (c ∷ cs) f last v (other, others) stored =
    let (s, there, lives, same) =
      run-Lives syn key cs (step syn c f) last (step-Inv syn c f v) others stored in
    let (s', before, moved) = step-Moved syn key f v s c other there in
    let lives' : Lives last s' = elim moved [
      | inl same' ↦ subst (Lives last) (sym same') lives
      | inr move ↦ goes_on move lives
    ] in
    (s', before, lives', Lives-SameRequest lives')
