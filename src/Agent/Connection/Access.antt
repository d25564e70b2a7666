-- ===== src/Agent/Connection/Access.antt =====
-- A connection without a valid API key has no effect.
use jrok_rs.Base.{
  ℕ, ◌≡◌, refl, ◌∙◌, Bool, true, false, Option, none, some, String, List, [], ◌∷◌, arith,
  if◌then◌else◌,
}
use jrok_rs.Agent.Connection.{
  opened, Base64, Surroundings, Connection, Server, on_register, on_message, on_text,
  handle_agent_connection, heartbeat_of,
}
use jrok_rs.Error.{Result, ok, err}
use jrok_rs.Proto.{Message}

abbrev pub is_valid : Result Bool → Bool
is_valid (err _) = false
is_valid (ok b) = b

-- What can be said of a registration and of what it meets.
abbrev pub OfRegistration : Type 1
OfRegistration =
    Surroundings
    → (subdomain : String) (local_port : ℕ) (local_host protocol api_key : String) → Type 0

-- It holds of a text, if the text is a registration.
abbrev pub OnRegister : OfRegistration → Surroundings × Option Message → Type 0
OnRegister P (s, some (Message.register subdomain local_port local_host protocol api_key)) =
    P s subdomain local_port local_host protocol api_key
OnRegister P _ = Unit

abbrev pub HasInvalidKey : OfRegistration
HasInvalidKey s subdomain local_port local_host protocol api_key =
    is_valid (s.key_answer api_key) ≡ false

abbrev pub IsUnauthorized : Surroundings × Option Message → Type 0
IsUnauthorized = OnRegister HasInvalidKey

abbrev pub AllUnauthorized : List (Surroundings × Option Message) → Type 0
AllUnauthorized [] = Unit
AllUnauthorized (text ∷ texts) = IsUnauthorized text × AllUnauthorized texts

-- Nobody is registered on the connection, and the server is as it was.
abbrev pub Untouched : Server → Connection × Server → Type 0
Untouched server (c, after) = (c.agent_id ≡ none) × (after ≡ server)

pub on_register-Untouched :
    (s : Surroundings) (subdomain : String) (local_port : ℕ) (local_host protocol api_key : String)
    (c : Connection) (server : Server)
    → is_valid (s.key_answer api_key) ≡ false
    → c.agent_id ≡ none
    → Untouched server (on_register s subdomain local_port local_host protocol api_key (c, server))
unfolding on_register
on_register-Untouched s subdomain local_port local_host protocol api_key c server invalid nobody =
    ground arith

-- It leaves the server alone.
abbrev pub LeavesAlone : Server → OfRegistration
LeavesAlone server s subdomain local_port local_host protocol api_key =
    (c : Connection)
    → c.agent_id ≡ none
    → Untouched server (on_register s subdomain local_port local_host protocol api_key (c, server))

abbrev pub IsRefused : Server → Surroundings × Option Message → Type 0
IsRefused server = OnRegister (LeavesAlone server)

module _ (P Q : OfRegistration)
    (weaker : (s : Surroundings) (subdomain : String) (local_port : ℕ)
        (local_host protocol api_key : String)
      → P s subdomain local_port local_host protocol api_key
      → Q s subdomain local_port local_host protocol api_key) where
  pub map-OnRegister :
      (text : Surroundings × Option Message) → OnRegister P text → OnRegister Q text
  map-OnRegister (s, some (Message.register subdomain local_port local_host protocol api_key)) h =
      weaker s subdomain local_port local_host protocol api_key h
  map-OnRegister (s, none) h = tt
  map-OnRegister (s, some (Message.welcome agent_id subdomain protocol)) h = tt
  map-OnRegister (s, some (Message.error message)) h = tt
  map-OnRegister (s, some (Message.http_request request_id method path headers body)) h = tt
  map-OnRegister (s, some (Message.http_response request_id status headers body)) h = tt
  map-OnRegister (s, some Message.heartbeat) h = tt
  map-OnRegister (s, some Message.heartbeat_ack) h = tt
  map-OnRegister (s, some (Message.tcp_listen_request session_id client_nat)) h = tt
  map-OnRegister (s, some (Message.tcp_listen_response session_id endpoint agent_nat)) h = tt
  map-OnRegister (s, some (Message.connection_established session_id is_direct)) h = tt
  map-OnRegister (s, some (Message.tcp_connect connection_id client_ip)) h = tt
  map-OnRegister (s, some (Message.tcp_data connection_id payload)) h = tt
  map-OnRegister (s, some (Message.tcp_disconnect connection_id)) h = tt

unauthorized-IsRefused :
    (text : Surroundings × Option Message) (server : Server)
    → IsUnauthorized text
    → IsRefused server text
unauthorized-IsRefused text server =
    map-OnRegister HasInvalidKey (LeavesAlone server)
      (λ s subdomain local_port local_host protocol api_key invalid c nobody.
        on_register-Untouched s subdomain local_port local_host protocol api_key c server invalid
          nobody)
      text

on_message-Untouched :
    (base64 : Base64) (s : Surroundings) (message : Message) (c : Connection) (server : Server)
    → IsRefused server (s, some message)
    → c.agent_id ≡ none
    → Untouched server (on_message base64 s message (c, server))
unfolding on_message heartbeat_of
on_message-Untouched base64 s (Message.register subdomain local_port local_host protocol api_key) c
      server refused nobody =
    refused c nobody
on_message-Untouched base64 s Message.heartbeat c server h nobody = (nobody, rw nobody refl)
on_message-Untouched base64 s (Message.http_response request_id status headers body) c server h
      nobody =
    rw nobody (refl, refl)
on_message-Untouched base64 s (Message.tcp_connect connection_id client_ip) c server h nobody =
    rw nobody (refl, refl)
on_message-Untouched base64 s (Message.tcp_data connection_id payload) c server h nobody =
    (nobody, refl)
on_message-Untouched base64 s (Message.tcp_disconnect connection_id) c server h nobody =
    rw nobody (refl, refl)
on_message-Untouched base64 s (Message.tcp_listen_response session_id endpoint agent_nat) c server h
      nobody =
    rw nobody (refl, refl)
on_message-Untouched base64 s (Message.connection_established session_id is_direct) c server h
      nobody =
    rw nobody (refl, refl)
on_message-Untouched base64 s (Message.welcome agent_id subdomain protocol) c server h nobody =
    (nobody, refl)
on_message-Untouched base64 s (Message.error message) c server h nobody = (nobody, refl)
on_message-Untouched base64 s (Message.http_request request_id method path headers body) c server h
      nobody =
    (nobody, refl)
on_message-Untouched base64 s Message.heartbeat_ack c server h nobody = (nobody, refl)
on_message-Untouched base64 s (Message.tcp_listen_request session_id client_nat) c server h nobody =
    (nobody, refl)

if-Untouched :
    (b : Bool) (x y : Connection × Server) (server : Server)
    → Untouched server x
    → Untouched server y
    → Untouched server (if b then x else y)
if-Untouched true x y server u v = u
if-Untouched false x y server u v = v

pub on_text-Untouched :
    (base64 : Base64) (text : Surroundings × Option Message) (c : Connection) (server : Server)
    → IsRefused server text
    → c.agent_id ≡ none
    → Untouched server (on_text base64 text (c, server))
unfolding on_text
on_text-Untouched base64 (s, none) c server h nobody = (nobody, refl)
on_text-Untouched base64 (s, some message) c server h nobody =
    if-Untouched c.closed (c, server) (on_message base64 s message (c, server)) server
      (nobody, refl) (on_message-Untouched base64 s message c server h nobody)

handle_all-Untouched :
    (base64 : Base64) (texts : List (Surroundings × Option Message)) (state : Connection × Server)
    (server : Server)
    → AllUnauthorized texts
    → Untouched server state
    → Untouched server (handle_agent_connection base64 texts state)
unfolding handle_agent_connection
handle_all-Untouched base64 [] state server h u = u
handle_all-Untouched base64 (text ∷ texts) (c, before) server (h, hs) (nobody, same) =
    let (nobody', same') =
      on_text-Untouched base64 text c before (unauthorized-IsRefused text before h) nobody in
    handle_all-Untouched base64 texts (on_text base64 text (c, before)) server hs
      (nobody', same' ∙ same)

-- Whatever texts arrive on a new connection, in any order: if no registration among them has a valid
-- API key, then the registry, the sessions of the facilitator and the waiting requests stay as they
-- are, and nobody is registered on the connection.
pub handle_agent_connection-AllUnauthorized :
    (base64 : Base64) (texts : List (Surroundings × Option Message)) (server : Server)
    → AllUnauthorized texts
    → let (c, after) = handle_agent_connection base64 texts (opened, server) in
      (c.agent_id ≡ none) × (after ≡ server)
handle_agent_connection-AllUnauthorized base64 texts server h =
    handle_all-Untouched base64 texts (opened, server) server h (refl, refl)
