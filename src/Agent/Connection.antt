-- ===== src/Agent/Connection.antt =====
-- src/agent/mod.rs: the connection of an agent, a handler over the texts that arrive on its WebSocket.
-- The parser of messages, base64, fresh ids, the clock and the database's answers are arguments.
pub mod Access
pub mod Holds
pub mod Answered
pub mod Kept
use jrok_rs.Base.{ℕ, Bool, true, false, Option, none, some, String, List, [], ◌∷◌, if◌then◌else◌}
use jrok_rs.Agent.{AgentRegistry, HttpResponse, handle_response}
use jrok_rs.Agent.Register.{Answers, register}
use jrok_rs.Agent.Stale.{update_heartbeat}
use jrok_rs.Db.{protocol_of}
use jrok_rs.Error.{Result, ok, err, show_error}
use jrok_rs.Nat.{NatInfo}
use jrok_rs.Proto.{Message, NatInfoSer, nat_info_of_ser}
use jrok_rs.Tcp.{Facilitator, agent_listening, client_connected}
use jrok_rs.Base.{◌≡◌}

-- The standard base64 of a byte string, and its decoder.
pub record Base64 : Type 0 where
  pub encode : List ℕ → String
  pub decode : String → Option (List ℕ)
  pub decode-encode : (bytes : List ℕ) → decode (encode bytes) ≡ some bytes

-- What the handling of one text meets: the answers to its API key, to its registration and to its
-- heartbeat, and the id, the channel and the time that a registration draws.
pub record Surroundings : Type 0 where
  pub key_answer : String → Result Bool
  pub answers : Answers
  pub new_id : String
  pub channel : ℕ
  pub now_ms : ℕ
  pub heartbeat_answer : Result (Unit {0})

-- The handler's variables: the id of the agent, whether the handler has returned, and what it has
-- put into the channel `msg_tx`, the latest first.
pub record Connection : Type 0 where
  pub agent_id : Option String
  pub closed : Bool
  pub sent : List Message

-- What connections share, with the responses handed over to waiting requests, the latest first.
pub record Server : Type 0 where
  pub registry : AgentRegistry
  pub facilitator : Facilitator
  pub delivered : List (ℕ × HttpResponse)

abbrev pub opened : Connection
opened = record { agent_id = none; closed = false; sent = [] }

abbrev send : Message → Connection → Connection
send message c = record c { sent = message ∷ c.sent }

-- An error message, and `return`.
abbrev pub refuse : String → Connection → Connection
refuse text c = record c { closed = true; sent = Message.error text ∷ c.sent }

-- The registration of an agent whose key is valid.
unfoldable pub admit :
    Surroundings
    → (subdomain : String) (local_port : ℕ) (local_host protocol : String) → Connection × Server
    → Connection × Server
unfolding register protocol_of show_error
admit s subdomain local_port local_host protocol (c, server) =
    let registered =
      register s.answers s.new_id s.channel s.now_ms subdomain local_port local_host
        (protocol_of protocol) server.registry in
    let after : Server = record server { registry = registered.0 } in
    elim registered.1 [
      | ok id ↦ (
        record c { agent_id = some id; sent = Message.welcome id subdomain protocol ∷ c.sent },
        after,
      )
      | err e ↦ (refuse (show_error e) c, after)
    ]

-- `Message::Register`
unfoldable pub on_register :
    Surroundings
    → (subdomain : String) (local_port : ℕ) (local_host protocol api_key : String)
    → Connection × Server
    → Connection × Server
unfolding admit
on_register s subdomain local_port local_host protocol api_key (c, server) =
    elim (s.key_answer api_key) [
      | ok true ↦ admit s subdomain local_port local_host protocol (c, server)
      | ok false ↦ (refuse "Invalid API key" c, server)
      | err _ ↦ (refuse "Authentication failed" c, server)
    ]

-- `if let Some(ref id) = agent_id`
abbrev pub if_registered {ℓ} : {A : Type ℓ} → Option String → A → A → A
if_registered none unchanged changed = unchanged
if_registered (some id) unchanged changed = changed

abbrev pub encoded : Base64 → Option (List ℕ) → Option String
encoded base64 none = none
encoded base64 (some body) = some (base64.encode body)

-- What a response's channel gets.
abbrev pub deliver : AgentRegistry × Option (ℕ × HttpResponse) → Server → Server
deliver (registry, none) server = record server { registry = registry }
deliver (registry, some response) server = record server {
  registry = registry;
  delivered = response ∷ server.delivered;
}

unfoldable pub nat_of : Option NatInfoSer → Option NatInfo
unfolding nat_info_of_ser
nat_of none = none
nat_of (some nat) = some (nat_info_of_ser nat)

unfoldable pub heartbeat_of : Option String → Result (Unit {0}) → AgentRegistry → AgentRegistry
unfolding update_heartbeat
heartbeat_of none answer registry = registry
heartbeat_of (some id) answer registry = (update_heartbeat answer id registry).0

-- The `match` on a message. A registered agent's TCP data is only logged.
unfoldable pub on_message :
    Base64 → Surroundings → Message → Connection × Server → Connection × Server
unfolding on_register heartbeat_of handle_response agent_listening client_connected nat_of
on_message base64 s (Message.register subdomain local_port local_host protocol api_key)
      (c, server) =
    on_register s subdomain local_port local_host protocol api_key (c, server)
on_message base64 s Message.heartbeat (c, server) =
    (c, record server { registry = heartbeat_of c.agent_id s.heartbeat_answer server.registry })
on_message base64 s (Message.http_response request_id status headers body) (c, server) =
    if_registered c.agent_id (c, server)
      (
        c,
        deliver
            (handle_response base64.decode server.registry request_id status headers
              (encoded base64 body))
            server,
      )
on_message base64 s (Message.tcp_connect connection_id client_ip) (c, server) =
    if_registered c.agent_id (c, server)
      (send (Message.tcp_connect connection_id client_ip) c, server)
on_message base64 s (Message.tcp_data connection_id payload) (c, server) = (c, server)
on_message base64 s (Message.tcp_disconnect connection_id) (c, server) =
    if_registered c.agent_id (c, server) (send (Message.tcp_disconnect connection_id) c, server)
on_message base64 s (Message.tcp_listen_response session_id endpoint agent_nat) (c, server) =
    if_registered c.agent_id (c, server)
      (
        c,
        record server {
          facilitator =
              (agent_listening session_id endpoint (nat_of agent_nat) server.facilitator).0;
        },
      )
on_message base64 s (Message.connection_established session_id is_direct) (c, server) =
    if_registered c.agent_id (c, server)
      (c, record server { facilitator = (client_connected session_id server.facilitator).0 })
on_message base64 s _ (c, server) = (c, server)

-- One text, of which the parser has made a message or not; a handler that has returned reads none.
unfoldable pub on_text :
    Base64 → Surroundings × Option Message → Connection × Server → Connection × Server
unfolding on_message
on_text base64 (s, none) (c, server) = (c, server)
on_text base64 (s, some message) (c, server) =
    if c.closed then (c, server) else on_message base64 s message (c, server)

-- The loop of `handle_agent_connection`, until the stream ends.
unfoldable pub handle_agent_connection :
    Base64 → List (Surroundings × Option Message) → Connection × Server → Connection × Server
unfolding on_text
handle_agent_connection base64 [] state = state
handle_agent_connection base64 (text ∷ texts) state =
    handle_agent_connection base64 texts (on_text base64 text state)
