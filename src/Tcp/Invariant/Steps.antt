-- ===== src/Tcp/Invariant/Steps.antt =====
-- Every call keeps the invariant of the facilitator.
use mathlib.Core.Path.{subst}
use jrok_rs.Base.{
  ℕ, ◌≡◌, ◌≢◌, refl, sym, ◌∙◌, ◌⊎◌, inl, inr, Bool, Option, none, some, String, List, [], ◌∷◌,
  arith, eq_iff, Option-cases, Bool-cases,
}
use jrok_rs.Base.{◌=s◌}
use jrok_rs.Base.Int.{ℤ, as_i64, sub_i64}
use jrok_rs.Base.Map.{
  get, insert, keep, get-insert, get-insert_self, get-insert_ne, get-retain, insert-Unique,
  retain-Unique,
}
use jrok_rs.Base.Text.{◌+s◌}
use jrok_rs.Agent.{AgentRegistry, AgentState, Channels, get_by_subdomain}
use jrok_rs.Nat.{NatInfo}
use jrok_rs.Net.{AddrSyntax}
use jrok_rs.Tcp.Session.{connected, relayed, ConnectionSession, new_session, listening}
use jrok_rs.Tcp.{
  Facilitator, new, request_connection, agent_listening, client_connected, connection_failed,
  cleanup_sessions, is_recent,
}
use jrok_rs.Tcp.Commands.{Command, requests, listens, connects, fails_over, cleans, step, run}
use jrok_rs.Tcp.Invariant.{
  Inv, GoodSession, new-Inv, new_session-Good, listening-Good, connected-Good, relayed-Good,
}

module _ (f : Facilitator) (v : Inv f) (session_id : String) (s' : ConnectionSession) where
  -- A good session may be stored, with new relays and counters, if the other relays stay.
  put-Inv :
      (f' : Facilitator)
      → f'.sessions ≡ insert session_id s' f.sessions
      → GoodSession session_id (get session_id f'.relays) s'
      → ((key : String) → session_id ≢ key → get key f'.relays ≡ get key f.relays)
      → f'.tracker.total_attempts ≡ 0
      → Inv f'
  put-Inv f' e g same zero_attempts = record {
    unique = rw e (insert-Unique session_id s' f.sessions v.unique);
    good = λ key s h. elim (Bool-cases (session_id =s key)) [
      | inl hit ↦
          let k : session_id ≡ key = (eq_iff session_id key).0 hit in
          let h' : s' ≡ s = ground (arith, get-insert session_id key s' f.sessions) in
          subst (λ (t : ConnectionSession). GoodSession key (get key f'.relays) t) h'
            (subst (λ (t : String). GoodSession t (get t f'.relays) s') k g)
      | inr miss ↦
          let ne : session_id ≢ key = λ k. ground (arith, eq_iff session_id key) in
          let h' : get key f.sessions ≡ some s =
            ground (arith, get-insert session_id key s' f.sessions) in
          rw (same key ne) (v.good key s h')
    ];
    attempts = zero_attempts;
  }

-- A request leaves the facilitator alone, or stores a new session.
pub request_found :
    (syn : AddrSyntax) (channels : Channels) (registry : AgentRegistry) (session_id : String)
    (now_ms : ℕ) (subdomain client_addr : String) (f : Facilitator) (agent : String × AgentState)
    → get_by_subdomain registry subdomain ≡ some agent
    → let f' =
        (request_connection syn channels registry session_id now_ms subdomain client_addr f).0 in
      let session = new_session syn session_id now_ms subdomain client_addr agent.0 in
      (f' ≡ f) ⊎ (f' ≡ record f { sessions = insert session_id session f.sessions })
unfolding request_connection
request_found syn channels registry session_id now_ms subdomain client_addr f agent e = ground arith

request_connection-Inv :
    (syn : AddrSyntax) (channels : Channels) (registry : AgentRegistry) (session_id : String)
    (now_ms : ℕ) (subdomain client_addr : String) (f : Facilitator)
    → Inv f
    → Inv (request_connection syn channels registry session_id now_ms subdomain client_addr f).0
unfolding request_connection
request_connection-Inv syn channels registry session_id now_ms subdomain client_addr f v =
    elim (Option-cases (get_by_subdomain registry subdomain)) [
      | inl missing ↦ rw (missing, request_connection) v
      | inr found ↦
          elim (request_found syn channels registry session_id now_ms subdomain client_addr f
            found.0 found.1) [
              | inl same ↦ rw same v
              | inr stored ↦ rw stored (
                  put-Inv f v session_id _ _ refl
                    (new_session-Good syn session_id now_ms subdomain client_addr found.0.0
                      (get session_id f.relays))
                    (λ key ne. refl) v.attempts)
            ]
    ]

module _ (f : Facilitator) (v : Inv f) (session_id : String) where
  agent_listening-Inv :
      (endpoint : String) (agent_nat : Option NatInfo)
      → Inv (agent_listening session_id endpoint agent_nat f).0
  unfolding agent_listening
  agent_listening-Inv endpoint agent_nat = elim (Option-cases (get session_id f.sessions)) [
    | inl missing ↦ rw (missing, agent_listening) v
    | inr found ↦
        rw (found.1, agent_listening)
          (put-Inv f v session_id (listening found.0 endpoint agent_nat) _ refl
            (listening-Good session_id (get session_id f.relays) found.0 endpoint agent_nat
              (v.good session_id found.0 found.1))
            (λ key ne. refl) v.attempts)
  ]

  client_connected-Inv : Inv (client_connected session_id f).0
  unfolding client_connected
  client_connected-Inv = elim (Option-cases (get session_id f.sessions)) [
    | inl missing ↦ rw (missing, client_connected) v
    | inr found ↦
        rw (found.1, client_connected)
          (put-Inv f v session_id (record found.0 { status = connected }) _ refl
            (connected-Good session_id (get session_id f.relays) found.0
              (v.good session_id found.0 found.1))
            (λ key ne. refl) (ground arith))
  ]

  connection_failed-Inv : Inv (connection_failed session_id f).0
  unfolding connection_failed
  connection_failed-Inv = elim (Option-cases (get session_id f.sessions)) [
    | inl missing ↦ rw (missing, connection_failed) v
    | inr found ↦
        rw (found.1, connection_failed)
          (put-Inv f v session_id (record found.0 { status = relayed }) _ refl
            (rw (get-insert_self session_id ("relay:" +s session_id) f.relays) (
              relayed-Good session_id (get session_id f.relays) found.0
                (v.good session_id found.0 found.1)))
            (λ key ne. get-insert_ne session_id key ("relay:" +s session_id) f.relays ne)
            v.attempts)
  ]

pub keep-some {ℓ} :
    {A : Type ℓ} (p : A → Bool) (o : Option A) (a : A) → keep p o ≡ some a → o ≡ some a
keep-some p none a h = cc
keep-some p (some b) a h = ground arith

cleanup_sessions-Inv :
    (now_ms : ℕ) (timeout_ms : ℤ) (f : Facilitator)
    → Inv f
    → Inv (cleanup_sessions now_ms timeout_ms f)
unfolding cleanup_sessions
cleanup_sessions-Inv now_ms timeout_ms f v = record {
  unique = retain-Unique _ f.sessions v.unique;
  good = λ key s h. v.good key s (
      keep-some _ (get key f.sessions) s (
        sym (get-retain (is_recent (sub_i64 (as_i64 now_ms) timeout_ms)) key f.sessions v.unique)
        ∙ h));
  attempts = v.attempts;
}

-- Every call keeps the invariant.
pub step-Inv : (syn : AddrSyntax) (c : Command) (f : Facilitator) → Inv f → Inv (step syn c f)
unfolding step
step-Inv syn (requests channels registry session_id now_ms subdomain client_addr) f v =
    request_connection-Inv syn channels registry session_id now_ms subdomain client_addr f v
step-Inv syn (listens session_id endpoint agent_nat) f v =
    agent_listening-Inv f v session_id endpoint agent_nat
step-Inv syn (connects session_id) f v = client_connected-Inv f v session_id
step-Inv syn (fails_over session_id) f v = connection_failed-Inv f v session_id
step-Inv syn (cleans now_ms timeout_ms) f v = cleanup_sessions-Inv now_ms timeout_ms f v

run-Inv : (syn : AddrSyntax) (cs : List Command) (f : Facilitator) → Inv f → Inv (run syn cs f)
unfolding run
run-Inv syn [] f v = v
run-Inv syn (c ∷ cs) f v = run-Inv syn cs (step syn c f) (step-Inv syn c f v)

-- The invariant holds after any sequence of calls on a new facilitator: no session is stored twice;
-- each stands under its own id and is in one of five statuses; one that is ready or punching has an
-- endpoint, and one that is punching needs it; a relayed one has its relay; of a client only these
-- NAT types are known, none and unknown, and the flag for direct connections follows from them; and
-- no attempt has been counted.
pub run-new-Inv : (syn : AddrSyntax) (cs : List Command) → Inv (run syn cs new)
run-new-Inv syn cs = run-Inv syn cs new new-Inv
