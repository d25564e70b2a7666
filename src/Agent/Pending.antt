-- ===== src/Agent/Pending.antt =====
-- Requests that wait for a response.
use jrok_rs.Base.{ℕ, ◌≡◌, ◌≢◌, refl, ◌∙◌, Option, none, some, String, List}
use jrok_rs.Base.Map.{StrMap, get, get-insert_self, get-insert_ne, get-remove_self, get-remove_ne}
use jrok_rs.Agent.{
  AgentRegistry, create_pending_request, remove_pending_request, handle_response, decode_or_default,
}

module _ (decode : String → Option (List ℕ)) (registry : AgentRegistry) (request_id : String)
    (status : ℕ) (headers : StrMap String) (body : Option String) where
  handle_response_missing :
      get request_id registry.pending ≡ none
      → handle_response decode registry request_id status headers body ≡ (registry, none)
  unfolding handle_response
  handle_response_missing missing = rw (missing, handle_response) refl

  pub handle_response_waiting :
      (channel : ℕ)
      → get request_id registry.pending ≡ some channel
      → handle_response decode registry request_id status headers body ≡ (
        remove_pending_request registry request_id,
        some (
          channel,
          record { status = status; headers = headers; body = decode_or_default decode body },
        ),
      )
  unfolding handle_response remove_pending_request
  handle_response_waiting channel waiting = rw (waiting, handle_response) refl

  -- A request that is taken back, as after a timeout, gets no response any more.
  pub handle_response-remove_pending_request :
      let removed = remove_pending_request registry request_id in
      handle_response decode removed request_id status headers body ≡ (removed, none)
  unfolding handle_response remove_pending_request
  handle_response-remove_pending_request =
      rw (get-remove_self request_id registry.pending, handle_response) refl

module _ (decode : String → Option (List ℕ)) (registry : AgentRegistry) (request_id : String)
    (channel status : ℕ) (headers : StrMap String) (body : Option String) where
  -- A response goes to the channel that was created last for its request, and once: a second one for
  -- the same request goes nowhere. The requests with other ids are not touched.
  pub handle_response-create_pending_request :
      let created = create_pending_request registry request_id channel in
      let first = handle_response decode created request_id status headers body in
      (first.1
        ≡ some (
          channel,
          record { status = status; headers = headers; body = decode_or_default decode body },
        ))
      × (handle_response decode first.0 request_id status headers body ≡ (first.0, none))
      × ((other : String)
          → request_id ≢ other
          → get other first.0.pending ≡ get other registry.pending)
  unfolding create_pending_request remove_pending_request
  handle_response-create_pending_request =
      rw (handle_response_waiting decode created request_id status headers body channel waits) (
        refl,
        handle_response-remove_pending_request decode created request_id status headers body,
        others,
      )
    where
      created : AgentRegistry
      created = create_pending_request registry request_id channel

      waits : get request_id created.pending ≡ some channel
      waits = get-insert_self request_id channel registry.pending

      others :
          (other : String)
          → request_id ≢ other
          → get other (remove_pending_request created request_id).pending
            ≡ get other registry.pending
      others other ne =
          get-remove_ne request_id other created.pending ne
          ∙ get-insert_ne request_id other channel registry.pending ne
