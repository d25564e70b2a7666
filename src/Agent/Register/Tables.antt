-- ===== src/Agent/Register/Tables.antt =====
-- src/agent/registry.rs over the tables of src/db/mod.rs: a registration against the rows of agents and
-- servers.
use jrok_rs.Base.{ℕ, ◌≡◌, refl, inl, inr, Bool, true, Option, none, some, String, List}
use jrok_rs.Base.Int.{as_i64}
use jrok_rs.Agent.{AgentRegistry}
use jrok_rs.Agent.Register.{Answers, check_existing, register}
use jrok_rs.Db.{Protocol}
use jrok_rs.Db.Agents.{AgentRow, Agent, get_agent_by_subdomain, register_agent, upsert}
use jrok_rs.Db.Servers.{Server, get_server, Tables}
use jrok_rs.Db.Statement.{Fate, answered, refused, lost, Driver}
use jrok_rs.Error.Cases.{Result-cases}
use jrok_rs.Error.{Error, Result, ok, err}

abbrev owner_of : Result (Option Agent) → Result (Option String)
owner_of (err e) = err e
owner_of (ok none) = ok none
owner_of (ok (some agent)) = ok (some agent.server_id)

abbrev health_of : Result (Option Server) → Result (Option Bool)
health_of (err e) = err e
health_of (ok none) = ok none
health_of (ok (some server)) = ok (some server.is_healthy)

-- How the three statements of a registration end.
pub record Ends : Type 0 where
  pub existing : Fate
  pub owner : Fate
  pub insertion : Fate

-- The agent that a registration writes: it has no tunnel.
unfoldable pub new_entry :
    (agent_id token server_id : String) (now_ms : ℕ) (subdomain : String) (local_port : ℕ)
    (local_host : String)
    → Protocol
    → Agent
unfolding as_i64
new_entry agent_id token server_id now_ms subdomain local_port local_host protocol = record {
  id = agent_id;
  subdomain = subdomain;
  server_id = server_id;
  tunnel_id = none;
  local_port = local_port;
  local_host = local_host;
  protocol = protocol;
  connection_token = token;
  connected_at = as_i64 now_ms;
  last_heartbeat = as_i64 now_ms;
  active = true;
}

-- What the tables answer.
unfoldable pub answers_of : Driver → Ends → (now_ms : ℕ) → Agent → Tables → Answers
unfolding get_agent_by_subdomain get_server register_agent
answers_of driver ends now_ms entry tables = record {
  get_agent_by_subdomain =
      λ subdomain. owner_of (get_agent_by_subdomain driver ends.existing subdomain tables.agents);
  get_server = λ server_id. health_of (get_server ends.owner server_id tables.servers);
  register_agent = (register_agent driver ends.insertion now_ms entry tables.agents).1;
}

register_agent-refused :
    (driver : Driver) (fate : Fate) (now_ms : ℕ) (entry : Agent) (rows : List AgentRow)
    → ((register_agent driver fate now_ms entry rows).0 ≡ rows)
      × ((e : Error) × ((register_agent driver fate now_ms entry rows).1 ≡ err e))
unfolding register_agent upsert
register_agent-refused driver answered now_ms entry rows = (refl, (_, refl))
register_agent-refused driver (refused e) now_ms entry rows = (refl, (_, refl))
register_agent-refused driver (lost e) now_ms entry rows = (refl, (_, refl))

module _ (db : Answers) (e : Error) (refusal : db.register_agent ≡ err e) (agent_id : String)
    (channel now_ms : ℕ) (subdomain : String) (local_port : ℕ) (local_host : String)
    (protocol : Protocol) (registry : AgentRegistry) where
  register_refused :
      (e' : Error) × (register db agent_id channel now_ms subdomain local_port local_host protocol
          registry
        ≡ (registry, err e'))
  unfolding register
  register_refused = elim (Result-cases (check_existing db registry.server_id subdomain)) [
    | inl (e', refused') ↦ (e', rw (refused', register) refl)
    | inr (u, fine) ↦ (e, rw (fine, refusal, register) refl)
  ]

module _ (driver : Driver) (ends : Ends) (agent_id token : String) (channel now_ms : ℕ)
    (subdomain : String) (local_port : ℕ) (local_host : String) (protocol : Protocol)
    (tables : Tables) (registry : AgentRegistry) where
  -- Over tables as the migrations create them, whatever they hold and however the statements end, a
  -- registration ends with an error, and leaves the registry and the table of agents as they are.
  pub register-answers_of :
      let entry =
        new_entry agent_id token registry.server_id now_ms subdomain local_port local_host
          protocol in
      let db = answers_of driver ends now_ms entry tables in
      ((e : Error) × (register db agent_id channel now_ms subdomain local_port local_host protocol
            registry
          ≡ (registry, err e)))
      × ((register_agent driver ends.insertion now_ms entry tables.agents).0 ≡ tables.agents)
  unfolding answers_of
  register-answers_of =
      let entry =
        new_entry agent_id token registry.server_id now_ms subdomain local_port local_host
          protocol in
      let (same, (e, refusal)) =
        register_agent-refused driver ends.insertion now_ms entry tables.agents in
      (
        register_refused (answers_of driver ends now_ms entry tables) e refusal agent_id channel
            now_ms subdomain local_port local_host protocol registry,
        same,
      )
