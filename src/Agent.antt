-- ===== src/Agent.antt =====
-- src/agent/registry.rs: the agents connected to this server, and the requests that wait for a
-- response. Channels, base64 and the clock are arguments.
pub mod Pending
pub mod Register
pub mod Stale
pub mod Connection
pub mod Remote
use jrok_rs.Base.{
  ℕ, ◌≡◌, Bool, true, Option, none, some, String, List, [], ◌∷◌, length, if◌then◌else◌,
}
use jrok_rs.Base.{◌=s◌}
use jrok_rs.Base.Int.{ℤ}
use jrok_rs.Base.Map.{StrMap, get, insert, remove}
use jrok_rs.Base.Text.{◌+s◌}
use jrok_rs.Db.{Protocol}
use jrok_rs.Error.{Result, ok, err, internal, agent_not_found}
use jrok_rs.Proto.{Message}

-- The sending half of a message channel, and whether its receiving half has been dropped.
pub record Sender : Type 0 where
  pub id : ℕ
  pub receiver_dropped : Bool

pub record AgentState : Type 0 where
  pub tx : Sender
  pub subdomain : String
  pub local_port : ℕ
  pub local_host : String
  pub protocol : Protocol
  pub last_heartbeat : ℤ

-- `HttpResponse`
pub record HttpResponse : Type 0 where
  pub status : ℕ
  pub headers : StrMap String
  pub body : List ℕ

-- A pending request is known by the one-shot channel that waits for its response.
pub record AgentRegistry : Type 0 where
  pub server_id : String
  pub agents : StrMap AgentState
  pub pending : StrMap ℕ

-- `AgentRegistry::new`
unfoldable pub new_registry : (server_id : String) → AgentRegistry
new_registry server_id = record { server_id = server_id; agents = []; pending = [] }

-- Channels of tokio: whether a send succeeds, and the text of its error. A channel whose receiver
-- is gone refuses.
pub record Channels : Type 0 where
  pub send_error : Sender → Message → Option String
  pub refuses :
      (tx : Sender) (m : Message)
      → tx.receiver_dropped ≡ true
      → (e : String) × (send_error tx m ≡ some e)

find_subdomain : String → StrMap AgentState → Option (String × AgentState)
find_subdomain subdomain [] = none
find_subdomain subdomain ((id, agent) ∷ rest) =
    if agent.subdomain =s subdomain then some (id, agent) else find_subdomain subdomain rest

unfoldable pub get_by_subdomain : AgentRegistry → String → Option (String × AgentState)
unfolding find_subdomain
get_by_subdomain registry subdomain = find_subdomain subdomain registry.agents

unfoldable pub send_message : Channels → AgentRegistry → String → Message → Result (Unit {0})
unfolding get
send_message channels registry agent_id message = elim (get agent_id registry.agents) [
  | none ↦ err (agent_not_found agent_id)
  | some agent ↦ elim (channels.send_error agent.tx message) [
    | some e ↦ err (internal ("Failed to send message: " +s e))
    | none ↦ ok tt
  ]
]

-- The new one-shot channel is an argument.
unfoldable pub create_pending_request : AgentRegistry → String → ℕ → AgentRegistry
unfolding insert
create_pending_request registry request_id channel = record registry {
  pending = insert request_id channel registry.pending;
}

unfoldable pub remove_pending_request : AgentRegistry → String → AgentRegistry
unfolding remove
remove_pending_request registry request_id = record registry {
  pending = remove request_id registry.pending;
}

abbrev pub decode_or_default : (String → Option (List ℕ)) → Option String → List ℕ
decode_or_default decode none = []
decode_or_default decode (some b) = elim (decode b) [ none ↦ [] | some bytes ↦ bytes ]

-- The new registry, and the response with the channel that it goes to, if a request waits for it.
unfoldable pub handle_response :
    (String → Option (List ℕ))
    → AgentRegistry
    → String
    → ℕ
    → StrMap String
    → Option String
    → AgentRegistry × Option (ℕ × HttpResponse)
unfolding get remove
handle_response decode registry request_id status headers body =
    elim (get request_id registry.pending) [
      | none ↦ (registry, none)
      | some channel ↦ (
        record registry { pending = remove request_id registry.pending },
        some (
          channel,
          record { status = status; headers = headers; body = decode_or_default decode body },
        ),
      )
    ]

unfoldable pub count : AgentRegistry → ℕ
count registry = length registry.agents
