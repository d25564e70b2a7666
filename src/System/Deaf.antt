-- ===== src/System/Deaf.antt =====
-- Registries in which the receiver of every agent's channel is gone: what keeps them so, and what a
-- request for an agent gets from them.
use jrok_rs.Base.{
  ℕ, ◌≡◌, refl, ◌⊎◌, inl, inr, true, Option, none, some, String, List, [], ◌∷◌, arith, eq_iff,
  Option-cases,
}
use jrok_rs.Base.Int.{ℤ, as_i64, sub_i64}
use jrok_rs.Base.Map.{StrMap, get, insert, remove, get-insert, get-remove_self, get-remove_ne}
use jrok_rs.Base.Text.{◌+s◌}
use jrok_rs.Agent.{
  AgentRegistry, AgentState, Channels, HttpResponse, create_pending_request, get_by_subdomain,
  remove_pending_request, send_message,
}
use jrok_rs.Agent.Register.{unregister}
use jrok_rs.Agent.Stale.{cleanup_stale, stale_ids, unregister_each}
use jrok_rs.Error.{Error, Result, ok, err, internal, agent_not_found}
use jrok_rs.Error.Cases.{Result-cases}
use jrok_rs.Proto.{Message}
use jrok_rs.Tcp.Decisions.{send_message-dropped}
use jrok_rs.Tunnel.{
  HttpSyntax, Request, elsewhere, redirect, trim_slashes, request_message, proxy_http,
}

-- The receiver of every agent's channel is gone.
abbrev pub AllDropped : StrMap AgentState → Type 0
AllDropped agents =
    (id : String) (agent : AgentState)
    → get id agents ≡ some agent
    → agent.tx.receiver_dropped ≡ true

pub insert-AllDropped :
    (key : String) (new : AgentState) (agents : StrMap AgentState)
    → new.tx.receiver_dropped ≡ true
    → AllDropped agents
    → AllDropped (insert key new agents)
insert-AllDropped key new agents gone given id agent found =
    ground (arith, get-insert key id new agents, given id agent)

remove-AllDropped :
    (key : String) (agents : StrMap AgentState) → AllDropped agents → AllDropped (remove key agents)
remove-AllDropped key agents given id agent found =
    ground (
      arith,
      eq_iff key id,
      get-remove_self key agents,
      get-remove_ne key id agents,
      given id agent,
    )

unregister-AllDropped :
    (answer : Result (Unit {0})) (id : String) (registry : AgentRegistry)
    → AllDropped registry.agents
    → AllDropped (unregister answer id registry).0.agents
unfolding unregister
unregister-AllDropped answer id registry given = elim (Option-cases (get id registry.agents)) [
  | inl missing ↦ rw (missing, unregister) given
  | inr (agent, found) ↦ rw (found, unregister) (remove-AllDropped id registry.agents given)
]

unregister_each-AllDropped :
    (answers : String → Result (Unit {0})) (ids : List String) (registry : AgentRegistry)
    → AllDropped registry.agents
    → AllDropped (unregister_each answers ids registry).0.agents
unfolding unregister_each
unregister_each-AllDropped answers [] registry given = given
unregister_each-AllDropped answers (id ∷ ids) registry given =
    let kept = unregister-AllDropped (answers id) id registry given in
    elim (Result-cases (unregister (answers id) id registry).1) [
      | inl (e, failed) ↦ rw (failed, unregister_each) kept
      | inr (u, done) ↦
          rw (done, unregister_each)
            (unregister_each-AllDropped answers ids (unregister (answers id) id registry).0 kept)
    ]

pub cleanup_stale-AllDropped :
    (answers : String → Result (Unit {0})) (final : Result (Unit {0})) (now_ms : ℕ) (timeout_ms : ℤ)
    (registry : AgentRegistry)
    → AllDropped registry.agents
    → AllDropped (cleanup_stale answers final now_ms timeout_ms registry).0.agents
unfolding cleanup_stale
cleanup_stale-AllDropped answers final now_ms timeout_ms registry given =
    let ids = stale_ids (sub_i64 (as_i64 now_ms) timeout_ms) registry.agents in
    let kept = unregister_each-AllDropped answers ids registry given in
    elim (Result-cases (unregister_each answers ids registry).1) [
      | inl (e, failed) ↦ rw (failed, cleanup_stale) kept
      | inr (u, done) ↦ rw (done, cleanup_stale) kept
    ]

-- No message can be sent.
pub send_message-AllDropped :
    (channels : Channels) (registry : AgentRegistry) (agent_id : String) (message : Message)
    → AllDropped registry.agents
    → (e : Error) × (send_message channels registry agent_id message ≡ err e)
unfolding send_message
send_message-AllDropped channels registry agent_id message given =
    elim (Option-cases (get agent_id registry.agents)) [
      | inl missing ↦ (agent_not_found agent_id, rw (missing, send_message) refl)
      | inr (agent, found) ↦
          let (e, refused) =
            send_message-dropped channels registry agent_id agent message found
              (given agent_id agent found) in
          (internal ("Failed to send message: " +s e), refused)
    ]

-- The statuses of a request that reaches no agent, by the agent on this server that has its subdomain.
abbrev pub IsRefusal : Option (String × AgentState) → ℕ → Type 0
IsRefusal none status = (status ≡ 307) ⊎ (status ≡ 404) ⊎ (status ≡ 500)
IsRefusal (some agent) status = status ≡ 502

elsewhere-IsRefusal :
    (syn : HttpSyntax) (remote : Result (Option String)) (request : Request)
    → IsRefusal none (elsewhere syn remote request).status
unfolding elsewhere redirect
elsewhere-IsRefusal syn (ok (some server_host)) request =
    let redirect_url = "http://" +s server_host +s "/" +s trim_slashes ("/" +s request.path) in
    elim (Option-cases (syn.location redirect_url)) [
      | inl invalid ↦ rw (invalid, elsewhere, redirect) (inr (inr refl))
      | inr (kept, valid) ↦ rw (valid, elsewhere, redirect) (inl refl)
    ]
elsewhere-IsRefusal syn (ok none) request = inr (inl refl)
elsewhere-IsRefusal syn (err e) request = inr (inl refl)

-- A proxied request is refused, and the agents stay.
pub proxy_http-AllDropped :
    (syn : HttpSyntax) (channels : Channels) (remote : Result (Option String)) (request_id : String)
    (channel : ℕ) (meanwhile : AgentRegistry → AgentRegistry × Option HttpResponse)
    (request : Request) (registry : AgentRegistry)
    → AllDropped registry.agents
    → let (after, reply) =
        proxy_http syn channels remote request_id channel meanwhile request registry in
      (after.agents ≡ registry.agents)
      × IsRefusal (get_by_subdomain registry request.subdomain) reply.status
unfolding proxy_http create_pending_request remove_pending_request
proxy_http-AllDropped syn channels remote request_id channel meanwhile request registry given =
    elim (Option-cases (get_by_subdomain registry request.subdomain)) [
      | inl missing ↦ rw (missing, proxy_http) (refl, elsewhere-IsRefusal syn remote request)
      | inr ((agent_id, agent), found) ↦
          let (e, refused) =
            send_message-AllDropped channels (create_pending_request registry request_id channel)
              agent_id (request_message request_id request) given in
          rw (found, refused, proxy_http) (refl, refl)
    ]
