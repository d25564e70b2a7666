-- ===== src/Agent/Connection/Answered.antt =====
-- What the messages of a registered agent do to the rest of the server.
use jrok_rs.Base.{
  ℕ, ◌≡◌, ◌≢◌, if◌then◌else◌, refl, sym, ap, ◌∙◌, false, Option, none, some, String, List, ◌∷◌,
}
use jrok_rs.Base.Map.{StrMap, get}
use jrok_rs.Agent.{
  AgentRegistry, HttpResponse, create_pending_request, handle_response, decode_or_default,
}
use jrok_rs.Agent.Connection.{
  Base64, Surroundings, Connection, Server, if_registered, deliver, on_message, on_text,
}
use jrok_rs.Agent.Pending.{handle_response-create_pending_request}
use jrok_rs.Proto.{Message}

module _ (base64 : Base64) (s : Surroundings) (c : Connection) (server : Server) (agent_id : String)
    (registered : c.agent_id ≡ some agent_id) (running : c.closed ≡ false) where
  on_text_registered :
      (message : Message)
      → on_text base64 (s, some message) (c, server) ≡ on_message base64 s message (c, server)
  unfolding on_text
  on_text_registered message =
      ap (λ closed. if closed then (c, server) else on_message base64 s message (c, server)) running

deliver-some :
    (answer : AgentRegistry × Option (ℕ × HttpResponse)) (server : Server)
    (response : ℕ × HttpResponse)
    → answer.1 ≡ some response
    → (deliver answer server).delivered ≡ response ∷ server.delivered
deliver-some (registry, none) server response h = cc
deliver-some (registry, some r) server response h = ap (λ o. of_option r o ∷ server.delivered) h
  where
    of_option : (ℕ × HttpResponse) → Option (ℕ × HttpResponse) → ℕ × HttpResponse
    of_option default none = default
    of_option default (some r) = r

deliver-registry :
    (answer : AgentRegistry × Option (ℕ × HttpResponse)) (server : Server)
    → (deliver answer server).registry ≡ answer.0
deliver-registry (registry, none) server = refl
deliver-registry (registry, some response) server = refl

module _ (base64 : Base64) (s : Surroundings) (c : Connection) (server : Server) (agent_id : String)
    (registered : c.agent_id ≡ some agent_id) (running : c.closed ≡ false) (request_id : String)
    (channel status : ℕ) (headers : StrMap String) (bytes : List ℕ) where
  message : Message
  message = Message.http_response request_id status headers (some bytes)

  answer_of : Server → AgentRegistry × Option (ℕ × HttpResponse)
  answer_of server =
      handle_response base64.decode server.registry request_id status headers
        (some (base64.encode bytes))

  on_text_response :
      (server : Server)
      → on_text base64 (s, some message) (c, server) ≡ (c, deliver (answer_of server) server)
  unfolding on_message message answer_of
  on_text_response server =
      on_text_registered base64 s c server agent_id registered running message
      ∙ ap (λ id. if_registered id (c, server) (c, deliver (answer_of server) server)) registered

  decoded : decode_or_default base64.decode (some (base64.encode bytes)) ≡ bytes
  decoded = rw (base64.decode-encode bytes, decode_or_default) refl

  -- The response of a registered agent is handed to the channel of the request that waits for it,
  -- with the status, the headers and the very bytes that the agent has sent, although they pass
  -- through base64; it is handed over once, and the other waiting requests keep waiting.
  pub delivered-on_text :
      let waiting : Server = record server {
        registry = create_pending_request server.registry request_id channel;
      } in
      let text : Surroundings × Option Message =
        (s, some (Message.http_response request_id status headers (some bytes))) in
      let first = on_text base64 text (c, waiting) in
      (first.1.delivered
        ≡ (channel, record { status = status; headers = headers; body = bytes }) ∷ server.delivered)
      × ((on_text base64 text first).1.delivered ≡ first.1.delivered)
      × ((other : String)
          → request_id ≢ other
          → get other first.1.registry.pending ≡ get other server.registry.pending)
  unfolding message answer_of
  delivered-on_text =
      let waiting : Server = record server {
        registry = create_pending_request server.registry request_id channel;
      } in
      let answer = answer_of waiting in
      let after = deliver answer waiting in
      let eq = on_text_response waiting in
      let (handed, once, others) =
        handle_response-create_pending_request base64.decode server.registry request_id channel
          status headers (some (base64.encode bytes)) in
      (
        ap (λ (st : Connection × Server). st.1.delivered) eq
            ∙ deliver-some answer waiting _ handed
            ∙ ap
                (λ body.
                  (channel, record { status = status; headers = headers; body = body })
                  ∷ server.delivered)
                decoded,
        ap (λ st. (on_text base64 (s, some message) st).1.delivered) eq
            ∙ ap (λ (st : Connection × Server). st.1.delivered) (on_text_response after)
            ∙ ap
                (λ registry.
                  (deliver
                    (handle_response base64.decode registry request_id status headers
                      (some (base64.encode bytes)))
                    after).delivered)
                (deliver-registry answer waiting)
            ∙ ap (λ answer'. (deliver answer' after).delivered) once
            ∙ sym (ap (λ (st : Connection × Server). st.1.delivered) eq),
        λ other ne.
            ap (λ (st : Connection × Server). get other st.1.registry.pending) eq
            ∙ ap (λ (r : AgentRegistry). get other r.pending) (deliver-registry answer waiting)
            ∙ others other ne,
      )
