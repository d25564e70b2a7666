-- ===== src/Agent/Connection/Holds.antt =====
-- src/agent/mod.rs: what the texts on a connection can do to the agents and to the facilitator.
use jrok_rs.Base.{
  ℕ, Bool, true, false, Option, none, some, String, List, [], ◌∷◌, if◌then◌else◌, Option-cases, inl,
  inr,
}
use jrok_rs.Base.Map.{StrMap, get, insert}
use jrok_rs.Agent.{AgentRegistry, AgentState, HttpResponse, handle_response}
use jrok_rs.Agent.Register.{Answers, new_agent, check_existing, register}
use jrok_rs.Agent.Connection.{
  Base64, Surroundings, Connection, Server, heartbeat_of, if_registered, encoded, deliver, admit,
  on_register, on_message, on_text, handle_agent_connection, nat_of,
}
use jrok_rs.Agent.Stale.{update_heartbeat}
use jrok_rs.Error.{Result}
use jrok_rs.Error.Cases.{Result-cases}
use jrok_rs.Db.{Protocol, protocol_of}
use jrok_rs.Nat.{NatInfo}
use jrok_rs.Proto.{Message}
use jrok_rs.Tcp.{Facilitator, agent_listening, client_connected}

-- A property of the agents and the facilitator that the registration of one more agent, the report
-- of an agent that listens and the report of a connection keep.
module _ (P : StrMap AgentState → Facilitator → Type 0)
    (registers : (agent_id : String) (channel now_ms : ℕ) (subdomain : String) (local_port : ℕ)
        (local_host : String) (protocol : Protocol) (agents : StrMap AgentState) (f : Facilitator)
      → P agents f
      → P
          (insert agent_id
            (new_agent channel now_ms subdomain local_port local_host protocol)
            agents)
          f)
    (listens : (session_id endpoint : String) (agent_nat : Option NatInfo)
        (agents : StrMap AgentState) (f : Facilitator)
      → P agents f
      → P agents (agent_listening session_id endpoint agent_nat f).0)
    (connects : (session_id : String) (agents : StrMap AgentState) (f : Facilitator)
      → P agents f
      → P agents (client_connected session_id f).0) where
  Holds : Server → Type 0
  Holds server = P server.registry.agents server.facilitator

  register-Holds :
      (db : Answers) (agent_id : String) (channel now_ms : ℕ) (subdomain : String) (local_port : ℕ)
      (local_host : String) (protocol : Protocol) (registry : AgentRegistry) (f : Facilitator)
      → P registry.agents f
      → P
          (register db agent_id channel now_ms subdomain local_port local_host protocol
            registry).0.agents
          f
  unfolding register
  register-Holds db agent_id channel now_ms subdomain local_port local_host protocol registry f
        given =
      elim (Result-cases (check_existing db registry.server_id subdomain)) [
        | inl (e, refused) ↦ rw (refused, register) given
        | inr (u, fine) ↦ elim (Result-cases db.register_agent) [
          | inl (e, refused) ↦ rw (fine, refused, register) given
          | inr (v, done) ↦
              rw (fine, done, register)
                (registers agent_id channel now_ms subdomain local_port local_host protocol
                  registry.agents f given)
        ]
      ]

  admit-Holds :
      (s : Surroundings) (subdomain : String) (local_port : ℕ) (local_host protocol : String)
      (c : Connection) (server : Server)
      → Holds server
      → Holds (admit s subdomain local_port local_host protocol (c, server)).1
  unfolding admit Holds
  admit-Holds s subdomain local_port local_host protocol c server given =
      let kept =
        register-Holds s.answers s.new_id s.channel s.now_ms subdomain local_port local_host
          (protocol_of protocol) server.registry server.facilitator given in
      elim (Result-cases
        (register s.answers s.new_id s.channel s.now_ms subdomain local_port local_host
          (protocol_of protocol) server.registry).1) [
            | inl (e, refused) ↦ rw (refused, admit) kept
            | inr (new_id, done) ↦ rw (done, admit) kept
          ]

  on_register-Holds :
      (s : Surroundings) (subdomain : String) (local_port : ℕ)
      (local_host protocol api_key : String) (c : Connection) (server : Server)
      → Holds server
      → Holds (on_register s subdomain local_port local_host protocol api_key (c, server)).1
  unfolding on_register
  on_register-Holds s subdomain local_port local_host protocol api_key c server given =
      elim (Result-cases (s.key_answer api_key)) [
        | inl (e, failed) ↦ rw (failed, on_register) given
        | inr (true, valid) ↦
            rw (valid, on_register)
              (admit-Holds s subdomain local_port local_host protocol c server given)
        | inr (false, invalid) ↦ rw (invalid, on_register) given
      ]

  deliver-Holds :
      (answer : AgentRegistry × Option (ℕ × HttpResponse)) (server : Server)
      → P answer.0.agents server.facilitator
      → Holds (deliver answer server)
  unfolding Holds
  deliver-Holds (registry, none) server given = given
  deliver-Holds (registry, some response) server given = given

  handle_response-Holds :
      (decode : String → Option (List ℕ)) (request_id : String) (status : ℕ)
      (headers : StrMap String) (body : Option String) (server : Server)
      → Holds server
      → Holds
          (deliver (handle_response decode server.registry request_id status headers body) server)
  unfolding handle_response Holds
  handle_response-Holds decode request_id status headers body server given =
      deliver-Holds (handle_response decode server.registry request_id status headers body) server
        (elim (Option-cases (get request_id server.registry.pending)) [
          | inl missing ↦ rw (missing, handle_response) given
          | inr (channel, waits) ↦ rw (waits, handle_response) given
        ])

  if_registered-Holds :
      (agent_id : Option String) (unchanged changed : Connection × Server)
      → Holds unchanged.1
      → Holds changed.1
      → Holds (if_registered agent_id unchanged changed).1
  if_registered-Holds none unchanged changed given given' = given
  if_registered-Holds (some _) unchanged changed given given' = given'

  heartbeat-Holds :
      (agent_id : Option String) (answer : Result (Unit {0})) (registry : AgentRegistry)
      (f : Facilitator)
      → P registry.agents f
      → P (heartbeat_of agent_id answer registry).agents f
  unfolding heartbeat_of update_heartbeat
  heartbeat-Holds none answer registry f given = given
  heartbeat-Holds (some _) answer registry f given = given

  on_message-Holds :
      (base64 : Base64) (s : Surroundings) (message : Message) (c : Connection) (server : Server)
      → Holds server
      → Holds (on_message base64 s message (c, server)).1
  unfolding on_message Holds
  on_message-Holds base64 s (Message.register subdomain local_port local_host protocol api_key) c
        server given =
      on_register-Holds s subdomain local_port local_host protocol api_key c server given
  on_message-Holds base64 s Message.heartbeat c server given =
      heartbeat-Holds c.agent_id s.heartbeat_answer server.registry server.facilitator given
  on_message-Holds base64 s (Message.http_response request_id status headers body) c server given =
      if_registered-Holds c.agent_id (c, server) _ given
        (handle_response-Holds base64.decode request_id status headers (encoded base64 body) server
          given)
  on_message-Holds base64 s (Message.tcp_connect connection_id client_ip) c server given =
      if_registered-Holds c.agent_id (c, server) _ given given
  on_message-Holds base64 s (Message.tcp_data connection_id payload) c server given = given
  on_message-Holds base64 s (Message.tcp_disconnect connection_id) c server given =
      if_registered-Holds c.agent_id (c, server) _ given given
  on_message-Holds base64 s (Message.tcp_listen_response session_id endpoint nat) c server given =
      if_registered-Holds c.agent_id (c, server) _ given
        (listens session_id endpoint (nat_of nat) server.registry.agents server.facilitator given)
  on_message-Holds base64 s (Message.connection_established session_id is_direct) c server given =
      if_registered-Holds c.agent_id (c, server) _ given
        (connects session_id server.registry.agents server.facilitator given)
  on_message-Holds base64 s (Message.welcome agent_id subdomain protocol) c server given = given
  on_message-Holds base64 s (Message.error message) c server given = given
  on_message-Holds base64 s (Message.http_request request_id method path headers body) c server
        given =
      given
  on_message-Holds base64 s Message.heartbeat_ack c server given = given
  on_message-Holds base64 s (Message.tcp_listen_request session_id client_nat) c server given =
      given

  if-Holds :
      (b : Bool) (x y : Connection × Server) → Holds x.1 → Holds y.1 → Holds (if b then x else y).1
  if-Holds true x y given given' = given
  if-Holds false x y given given' = given'

  pub on_text-Holds :
      (base64 : Base64) (text : Surroundings × Option Message) (c : Connection) (server : Server)
      → P server.registry.agents server.facilitator
      → let after = (on_text base64 text (c, server)).1 in P after.registry.agents after.facilitator
  unfolding on_text Holds
  on_text-Holds base64 (s, none) c server given = given
  on_text-Holds base64 (s, some message) c server given =
      if-Holds c.closed (c, server) (on_message base64 s message (c, server)) given
        (on_message-Holds base64 s message c server given)

  pub handle_agent_connection-Holds :
      (base64 : Base64) (texts : List (Surroundings × Option Message)) (c : Connection)
      (server : Server)
      → P server.registry.agents server.facilitator
      → let after = (handle_agent_connection base64 texts (c, server)).1 in
        P after.registry.agents after.facilitator
  unfolding handle_agent_connection
  handle_agent_connection-Holds base64 [] c server given = given
  handle_agent_connection-Holds base64 (text ∷ texts) c server given =
      let next = on_text base64 text (c, server) in
      handle_agent_connection-Holds base64 texts next.0 next.1
        (on_text-Holds base64 text c server given)
