-- ===== src/Agent/Register.antt =====
-- src/agent/registry.rs: registration and removal of agents. The answers of the database to the
-- statements are arguments.
pub mod Deaf
pub mod Tables
use jrok_rs.Base.{ℕ, Bool, true, false, not, Option, none, some, String, if◌then◌else◌}
use jrok_rs.Base.{◌=s◌}
use jrok_rs.Base.Int.{as_i64}
use jrok_rs.Base.Map.{get, insert, remove}
use jrok_rs.Base.Text.{◌+s◌}
use jrok_rs.Agent.{AgentRegistry, AgentState}
use jrok_rs.Db.{Protocol}
use jrok_rs.Error.{Result, ok, err, subdomain_taken}

-- What the database answers during one registration: the server id of the row for the subdomain, if
-- there is one; whether a server is known and healthy; and the end of the insertion.
pub record Answers : Type 0 where
  pub get_agent_by_subdomain : String → Result (Option String)
  pub get_server : String → Result (Option Bool)
  pub register_agent : Result (Unit {0})

-- The channel of an agent: its number, and that `_rx`, its receiver, has been dropped.
abbrev pub new_agent :
    (channel now_ms : ℕ) (subdomain : String) (local_port : ℕ) (local_host : String)
    → Protocol
    → AgentState
new_agent channel now_ms subdomain local_port local_host protocol = record {
  tx = record { id = channel; receiver_dropped = true };
  subdomain = subdomain;
  local_port = local_port;
  local_host = local_host;
  protocol = protocol;
  last_heartbeat = as_i64 now_ms;
}

-- An agent on another server keeps its subdomain if that server is healthy.
unfoldable pub check_existing : Answers → (server_id subdomain : String) → Result (Unit {0})
check_existing db server_id subdomain = elim (db.get_agent_by_subdomain subdomain) [
  | err e ↦ err e
  | ok none ↦ ok tt
  | ok (some owner) ↦ if owner =s server_id then ok tt else elim (db.get_server owner) [
    | err e ↦ err e
    | ok none ↦ ok tt
    | ok (some healthy) ↦
        if healthy
        then err (subdomain_taken ("Subdomain " +s subdomain +s " is on server " +s owner))
        else ok tt
  ]
]

unfoldable pub register :
    Answers
    → (agent_id : String) (channel now_ms : ℕ) (subdomain : String) (local_port : ℕ)
      (local_host : String)
    → Protocol
    → AgentRegistry
    → AgentRegistry × Result String
unfolding check_existing insert as_i64
register db agent_id channel now_ms subdomain local_port local_host protocol registry =
    elim (check_existing db registry.server_id subdomain) [
      | err e ↦ (registry, err e)
      | ok _ ↦ elim db.register_agent [
        | err e ↦ (registry, err e)
        | ok _ ↦ (
          record registry {
            agents =
                insert agent_id (new_agent channel now_ms subdomain local_port local_host protocol)
                  registry.agents;
          },
          ok agent_id,
        )
      ]
    ]

-- The answer of the database is that of `Db::unregister_agent`; the agent is gone either way.
unfoldable pub unregister :
    Result (Unit {0}) → String → AgentRegistry → AgentRegistry × Result (Unit {0})
unfolding get remove
unregister answer agent_id registry = elim (get agent_id registry.agents) [
  | none ↦ (registry, ok tt)
  | some _ ↦ (record registry { agents = remove agent_id registry.agents }, answer)
]
