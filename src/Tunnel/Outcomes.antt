-- ===== src/Tunnel/Outcomes.antt =====
-- How a proxied request ends, and that it leaves no request waiting.
use jrok_rs.Base.{
  ℕ, ◌≡◌, refl, ap, ◌∙◌, inl, inr, Option, none, some, String, List, [], Option-cases,
}
use jrok_rs.Base.Text.{◌+s◌}
use jrok_rs.Base.Map.{StrMap, get, get-insert_self, get-remove-insert}
use jrok_rs.Agent.{
  AgentRegistry, AgentState, Channels, HttpResponse, get_by_subdomain, create_pending_request,
  remove_pending_request, send_message, handle_response, decode_or_default,
}
use jrok_rs.Agent.Pending.{handle_response_waiting}
use jrok_rs.Error.{Error, Result, ok, err, show_error}
use jrok_rs.Error.Cases.{Result-cases}
use jrok_rs.Tunnel.{
  HttpSyntax, text, Reply, into_response, Request, request_message, elsewhere, finish, proxy_http,
}

-- Registries in which the same requests wait, and the same agents are stored.
abbrev pub SameWaits : AgentRegistry → AgentRegistry → Type 0
SameWaits after before =
    ((key : String) → get key after.pending ≡ get key before.pending)
    × (after.agents ≡ before.agents)

-- A response as it reaches the server before the wait is over: its status, headers and body.
abbrev pub Incoming : Type 0
Incoming = ℕ × StrMap String × Option String

abbrev response_of : Option (ℕ × HttpResponse) → Option HttpResponse
response_of none = none
response_of (some (channel, response)) = some response

-- A wait in which the registry handles the response to the request, or nothing happens.
unfoldable pub wait_for :
    (String → Option (List ℕ))
    → (request_id : String) → Option Incoming
    → AgentRegistry
    → AgentRegistry × Option HttpResponse
unfolding handle_response
wait_for decode request_id none registry = (registry, none)
wait_for decode request_id (some (status, headers, body)) registry =
    let (after, delivered) = handle_response decode registry request_id status headers body in
    (after, response_of delivered)

-- The answer to a request that has been sent to its agent.
expected : HttpSyntax → (String → Option (List ℕ)) → Option Incoming → Reply
unfolding into_response
expected syn decode none = record { status = 504; headers = []; content = text "Request timeout" }
expected syn decode (some (status, headers, body)) =
    into_response syn
      (record { status = status; headers = headers; body = decode_or_default decode body })

module _ (syn : HttpSyntax) (decode : String → Option (List ℕ)) (request_id : String) (channel : ℕ)
    (registry : AgentRegistry) (fresh : get request_id registry.pending ≡ none) where
  asked : AgentRegistry
  asked = create_pending_request registry request_id channel

  -- A request that is taken back leaves the requests that waited before it.
  taken_back : SameWaits (remove_pending_request asked request_id) registry
  unfolding asked remove_pending_request create_pending_request
  taken_back = (λ key. get-remove-insert request_id key channel registry.pending fresh, refl)

  finish-wait_for :
      (incoming : Option Incoming)
      → finish syn request_id (wait_for decode request_id incoming asked)
        ≡ (remove_pending_request asked request_id, expected syn decode incoming)
  unfolding finish wait_for expected asked create_pending_request
  finish-wait_for none = refl
  finish-wait_for (some (status, headers, body)) =
      ap
        (λ (r : AgentRegistry × Option (ℕ × HttpResponse)).
          finish syn request_id (r.0, response_of r.1))
        (handle_response_waiting decode asked request_id status headers body channel
          (get-insert_self request_id channel registry.pending))

  module _ (channels : Channels) (remote : Result (Option String)) (request : Request)
      (incoming : Option Incoming) where
    proxied : AgentRegistry × Reply
    proxied =
        proxy_http syn channels remote request_id channel (wait_for decode request_id incoming)
          request registry

    sent : String → Result (Unit {0})
    sent agent_id = send_message channels asked agent_id (request_message request_id request)

    proxy_http-missing :
        get_by_subdomain registry request.subdomain ≡ none
        → proxied ≡ (registry, elsewhere syn remote request)
    unfolding proxy_http proxied
    proxy_http-missing missing = rw (missing, proxy_http) refl

    proxy_http-refused :
        (agent_id : String) (agent : AgentState) (e : Error)
        → get_by_subdomain registry request.subdomain ≡ some (agent_id, agent)
        → sent agent_id ≡ err e
        → proxied ≡ (
          remove_pending_request asked request_id,
          record { status = 502; headers = []; content = text ("Agent error: " +s show_error e) },
        )
    unfolding proxy_http proxied sent asked
    proxy_http-refused agent_id agent e found refused = rw (found, refused, proxy_http) refl

    proxy_http-sent :
        (agent_id : String) (agent : AgentState) (u : Unit {0})
        → get_by_subdomain registry request.subdomain ≡ some (agent_id, agent)
        → sent agent_id ≡ ok u
        → proxied ≡ (remove_pending_request asked request_id, expected syn decode incoming)
    unfolding proxy_http proxied sent asked
    proxy_http-sent agent_id agent u found done =
        rw (found, done, proxy_http) (finish-wait_for incoming)

    proxied-SameWaits : SameWaits proxied.0 registry
    unfolding proxied
    proxied-SameWaits = elim (Option-cases (get_by_subdomain registry request.subdomain)) [
      | inl missing ↦
          ap-SameWaits (ap (λ r. r.0) (proxy_http-missing missing)) ((λ key. refl), refl)
      | inr ((agent_id, agent), found) ↦ elim (Result-cases (sent agent_id)) [
        | inl (e, refused) ↦
            ap-SameWaits (ap (λ r. r.0) (proxy_http-refused agent_id agent e found refused))
              taken_back
        | inr (u, done) ↦
            ap-SameWaits (ap (λ r. r.0) (proxy_http-sent agent_id agent u found done)) taken_back
      ]
    ]
      where
        ap-SameWaits :
            {after after' : AgentRegistry}
            → after ≡ after'
            → SameWaits after' registry
            → SameWaits after registry
        ap-SameWaits same (waits, agents) = (
          λ key. ap (λ (r : AgentRegistry). get key r.pending) same ∙ waits key,
          ap (λ (r : AgentRegistry). r.agents) same ∙ agents,
        )

    -- A proxied request whose id is not in use leaves the agents and the waiting requests as they
    -- were, if nothing but the response to it, or no response, arrives during its wait: whether its
    -- subdomain is unknown, its message cannot be sent, the response arrives or the time is over.
    pub proxy_http-SameWaits :
        SameWaits
          (proxy_http syn channels remote request_id channel
            (wait_for decode request_id incoming)
            request
            registry).0
          registry
    unfolding proxied
    proxy_http-SameWaits = proxied-SameWaits
