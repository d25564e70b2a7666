-- ===== src/Agent/Register/Deaf.antt =====
-- What a registration is worth: the subdomain check, and messages to a registered agent.
use jrok_rs.Base.{ℕ, ◌≡◌, ◌≢◌, refl, true, some, String, arith, eq_iff}
use jrok_rs.Base.Map.{get, get-insert_self}
use jrok_rs.Base.Text.{◌+s◌}
use jrok_rs.Agent.{AgentRegistry, Channels, send_message}
use jrok_rs.Db.{Protocol}
use jrok_rs.Error.{ok, err, internal, subdomain_taken}
use jrok_rs.Proto.{Message}
use jrok_rs.Tcp.Decisions.{send_message-dropped}
use jrok_rs.Agent.Register.{Answers, new_agent, check_existing, register}

module _ (db : Answers) (agent_id : String) (channel now_ms : ℕ) (subdomain : String)
    (local_port : ℕ) (local_host : String) (protocol : Protocol) (registry : AgentRegistry) where
  register_ok :
      (id : String)
      → (register db agent_id channel now_ms subdomain local_port local_host protocol registry).1
        ≡ ok id
      → get agent_id
          (register db agent_id channel now_ms subdomain local_port local_host protocol
            registry).0.agents
        ≡ some (new_agent channel now_ms subdomain local_port local_host protocol)
  unfolding register
  register_ok id done = ground (
    arith,
    get-insert_self agent_id (new_agent channel now_ms subdomain local_port local_host protocol)
        registry.agents,
  )

  -- After a registration that succeeds, the agent is known under its id with what it has registered;
  -- yet no message can be sent to it, over any channels and whatever the message: the receiver of
  -- its channel is gone.
  send_message-register :
      (channels : Channels) (message : Message) (id : String)
      → (register db agent_id channel now_ms subdomain local_port local_host protocol registry).1
        ≡ ok id
      → let after =
          (register db agent_id channel now_ms subdomain local_port local_host protocol
            registry).0 in
        (get agent_id after.agents
          ≡ some (new_agent channel now_ms subdomain local_port local_host protocol))
        × ((e : String) × (send_message channels after agent_id message
              ≡ err (internal ("Failed to send message: " +s e))))
  send_message-register channels message id done =
      let known = register_ok id done in
      (
        known,
        send_message-dropped channels
            (register db agent_id channel now_ms subdomain local_port local_host protocol
              registry).0
            agent_id (new_agent channel now_ms subdomain local_port local_host protocol) message
            known refl,
      )

  -- A subdomain whose row names another server that is known and healthy is refused, and the
  -- registry stays as it is.
  pub register-subdomain_taken :
      (owner : String)
      → db.get_agent_by_subdomain subdomain ≡ ok (some owner)
      → owner ≢ registry.server_id
      → db.get_server owner ≡ ok (some true)
      → register db agent_id channel now_ms subdomain local_port local_host protocol registry
        ≡ (registry, err (subdomain_taken ("Subdomain " +s subdomain +s " is on server " +s owner)))
  unfolding register check_existing
  register-subdomain_taken owner row other healthy = ground (arith, eq_iff owner registry.server_id)
