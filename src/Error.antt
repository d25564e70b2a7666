-- ===== src/Error.antt =====
-- src/error.rs: the error type with its texts, and Result.
pub mod Cases
use jrok_rs.Base.{String}
use jrok_rs.Base.Text.{◌+s◌}

-- A wrapped error of another library (libsql, serde_json, io, tungstenite) is kept as its text.
pub data Error : Type 0 where
  database agent_not_found tunnel_not_found server_not_found : String → Error
  subdomain_taken bad_request validation : String → Error
  invalid_api_key : Error
  web_socket serialization io : String → Error
  not_leader no_tcp_port timeout : Error
  internal : String → Error

pub data Result {ℓ} (A : Type ℓ) : Type ℓ where
  err : Error → Result A
  ok : A → Result A

-- `Error::from`, on an error of tungstenite.
abbrev pub of_tungstenite : (text : String) → Error
of_tungstenite text = web_socket text

-- What `{}` prints of an error.
unfoldable pub show_error : Error → String
show_error (database e) = "Database error: " +s e
show_error (agent_not_found e) = "Agent not found: " +s e
show_error (tunnel_not_found e) = "Tunnel not found: " +s e
show_error (server_not_found e) = "Server not found: " +s e
show_error (subdomain_taken e) = "Subdomain already taken: " +s e
show_error (bad_request e) = "Bad request: " +s e
show_error (validation e) = "Validation error: " +s e
show_error invalid_api_key = "Invalid API key"
show_error (web_socket e) = "WebSocket error: " +s e
show_error (serialization e) = "Serialization error: " +s e
show_error (io e) = "IO error: " +s e
show_error not_leader = "Not leader"
show_error no_tcp_port = "No available TCP port"
show_error timeout = "Connection timeout"
show_error (internal e) = "Internal error: " +s e
