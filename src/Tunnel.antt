-- ===== src/Tunnel.antt =====
-- src/tunnel/mod.rs: an HTTP request for a tunnel, and src/agent/registry.rs: the answer to it that is
-- made of an agent's response.
pub mod Outcomes
use Prim.Native.Char.{code}
use jrok_rs.Base.{ℕ, Bool, Option, none, some, String, List, [], ◌∷◌, ◌==◌, if◌then◌else◌}
use jrok_rs.Base.Map.{StrMap, insert}
use jrok_rs.Base.Text.{◌+s◌}
use jrok_rs.Agent.{
  AgentRegistry, AgentState, Channels, HttpResponse, get_by_subdomain, create_pending_request,
  remove_pending_request, send_message,
}
use jrok_rs.Error.{Result, ok, err, show_error}
use jrok_rs.Proto.{Message}

-- What the http library accepts: a status, a header, which it gives back as it keeps it, a whole set
-- of headers, and the value of a `Location` header; and the text of its error for such a value.
pub record HttpSyntax : Type 0 where
  pub is_status : ℕ → Bool
  pub header : String → String → Option (String × String)
  pub fits : List (String × String) → Bool
  pub location : String → Option String
  pub invalid_value : String

pub data Content : Type 0 where
  text : String → Content
  bytes : List ℕ → Content

pub record Reply : Type 0 where
  pub status : ℕ
  pub headers : List (String × String)
  pub content : Content

valid_headers : HttpSyntax → StrMap String → List (String × String)
valid_headers syn [] = []
valid_headers syn ((key, value) ∷ rest) =
    let others = valid_headers syn rest in
    elim (syn.header key value) [ none ↦ others | some kept ↦ kept ∷ others ]

-- `HttpResponse::into_response`
unfoldable pub into_response : HttpSyntax → HttpResponse → Reply
unfolding valid_headers
into_response syn response =
    let headers = valid_headers syn response.headers in
    if syn.fits headers
    then record {
      status = if syn.is_status response.status then response.status else 500;
      headers = headers;
      content = bytes response.body;
    }
    else record { status = 200; headers = []; content = bytes [] }

-- A request: the value of a header is missing if it is not text, the body if it cannot be read.
pub record Request : Type 0 where
  pub subdomain : String
  pub path : String
  pub method : String
  pub headers : List (String × Option String)
  pub body : Option (List ℕ)

headers_map : List (String × Option String) → StrMap String → StrMap String
unfolding insert
headers_map [] m = m
headers_map ((name, none) ∷ rest) m = headers_map rest m
headers_map ((name, some v) ∷ rest) m = headers_map rest (insert name v m)

abbrev body_bytes : Option (List ℕ) → List ℕ
body_bytes none = []
body_bytes (some body) = body

-- What is sent to the agent.
unfoldable pub request_message : (request_id : String) → Request → Message
unfolding headers_map
request_message request_id request =
    Message.http_request request_id request.method ("/" +s request.path)
      (headers_map request.headers []) (some (body_bytes request.body))

-- `trim_start_matches('/')`
pub trim_slashes : String → String
trim_slashes String.[] = ""
trim_slashes (String.◌∷◌ c s) =
    let rest = trim_slashes s in if code c == b'/' then rest else String.◌∷◌ c s

-- The answer with a redirect: axum answers with the error if the address is no value of a header.
unfoldable pub redirect : HttpSyntax → (redirect_url : String) → Reply
redirect syn redirect_url = elim (syn.location redirect_url) [
  | none ↦ record { status = 500; headers = []; content = text syn.invalid_value }
  | some kept ↦ record {
    status = 307;
    headers = ("Location", kept) ∷ [];
    content = text "Redirecting to agent server";
  }
]

-- The answer when no agent on this server has the subdomain: `remote` is what the database answers.
unfoldable pub elsewhere : HttpSyntax → Result (Option String) → Request → Reply
unfolding trim_slashes redirect
elsewhere syn (ok (some server_host)) request =
    redirect syn ("http://" +s server_host +s "/" +s trim_slashes ("/" +s request.path))
elsewhere syn _ request = record { status = 404; headers = []; content = text "Tunnel not found" }

-- The end of the wait: a response, or the channel has been closed or 30 seconds are over.
unfoldable pub finish :
    HttpSyntax → (request_id : String) → AgentRegistry × Option HttpResponse → AgentRegistry × Reply
unfolding into_response remove_pending_request
finish syn request_id (registry, some response) = (registry, into_response syn response)
finish syn request_id (registry, none) = (
  remove_pending_request registry request_id,
  record { status = 504; headers = []; content = text "Request timeout" },
)

-- `proxy_http`: `remote` is the answer of the database, the id and the channel are the ones that the
-- request draws, and `meanwhile` is what happens to the registry during the wait, with the response
-- that arrives on the channel, if one does.
unfoldable pub proxy_http :
    HttpSyntax
    → Channels
    → (remote : Result (Option String)) (request_id : String) (channel : ℕ)
      (meanwhile : AgentRegistry → AgentRegistry × Option HttpResponse)
    → Request
    → AgentRegistry
    → AgentRegistry × Reply
unfolding get_by_subdomain create_pending_request remove_pending_request send_message show_error
    request_message elsewhere finish
proxy_http syn channels remote request_id channel meanwhile request registry =
    elim (get_by_subdomain registry request.subdomain) [
      | none ↦ (registry, elsewhere syn remote request)
      | some found ↦
          let asked = create_pending_request registry request_id channel in
          elim (send_message channels asked found.0 (request_message request_id request)) [
            | err e ↦ (
              remove_pending_request asked request_id,
              record {
                status = 502;
                headers = [];
                content = text ("Agent error: " +s show_error e);
              },
            )
            | ok _ ↦ finish syn request_id (meanwhile asked)
          ]
    ]
