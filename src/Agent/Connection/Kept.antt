-- ===== src/Agent/Connection/Kept.antt =====
-- A connection never removes an agent: not the one that it has registered, and no other.
use jrok_rs.Base.{◌≡◌, refl, Bool, true, false, Option, some, String, List, if◌then◌else◌}
use jrok_rs.Base.{◌=s◌}
use jrok_rs.Base.Map.{StrMap, get, insert, get-insert}
use jrok_rs.Agent.{AgentRegistry, AgentState}
use jrok_rs.Agent.Connection.{Base64, Surroundings, Connection, Server, handle_agent_connection}
use jrok_rs.Agent.Connection.Holds.{handle_agent_connection-Holds}
use jrok_rs.Proto.{Message}

-- Some agent is stored under the id.
abbrev pub Knows : String → AgentRegistry → Type 0
Knows id registry = (agent : AgentState) × (get id registry.agents ≡ some agent)

insert-Knows :
    (id key : String) (new : AgentState) (agents : StrMap AgentState)
    → ((agent : AgentState) × (get id agents ≡ some agent))
    → (agent : AgentState) × (get id (insert key new agents) ≡ some agent)
insert-Knows id key new agents (agent, known) =
    rw (get-insert key id new agents) (branch (key =s id))
  where
    branch :
        (b : Bool) → (agent' : AgentState) × ((if b then some new else get id agents) ≡ some agent')
    branch true = (new, refl)
    branch false = (agent, known)

-- An agent in the registry stays in it over a whole connection, whatever texts arrive and until the
-- stream ends: neither the end of its own connection nor any message removes it.
pub handle_agent_connection-Knows :
    (id : String) (base64 : Base64) (texts : List (Surroundings × Option Message)) (c : Connection)
    (server : Server)
    → Knows id server.registry
    → Knows id (handle_agent_connection base64 texts (c, server)).1.registry
handle_agent_connection-Knows id base64 texts c server known =
    handle_agent_connection-Holds (λ agents f. (agent : AgentState) × (get id agents ≡ some agent))
      (λ agent_id channel now_ms subdomain local_port local_host protocol agents f known'.
        insert-Knows id agent_id _ agents known')
      (λ session_id endpoint agent_nat agents f known'. known')
      (λ session_id agents f known'. known') base64 texts c server known
