-- ===== src/Tests/Fixtures.antt =====
-- Concrete instances of the interfaces: an address syntax that parses what it prints, channels, and
-- networks; a STUN attribute to pass over; an agent, its registry and a few calls.
use Prim.Native.Char.{code}
use jrok_rs.Base.{
  ℕ, zero, suc, ◌≡◌, refl, ◌∙◌, ap, true, false, Option, none, some, String, List, [], ◌∷◌, ◌==◌,
  arith, if◌then◌else◌,
}
use jrok_rs.Base.Int.{pos}
use jrok_rs.Agent.{AgentRegistry, AgentState, Channels}
use jrok_rs.Agent.Connection.{Base64}
use jrok_rs.Db.Agents.{AgentRow}
use jrok_rs.Db.Servers.{Server, Tables}
use jrok_rs.Db.Statement.{Driver}
use jrok_rs.Db.{tcp}
use jrok_rs.Net.{Ipv4Addr, IpAddr, v4, v6, SocketAddr, AddrSyntax, UdpWorld, receive_failed}
use jrok_rs.Bytes.{align4}
use jrok_rs.Stun.Parse.Encoding.{Attribute, IsAttribute}
use jrok_rs.Stun.Parse.Mapped.{IsIgnored}

-- A number in strokes, closed by a comma.
strokes : ℕ → String → String
strokes zero s = String.◌∷◌ "," s
strokes (suc n) s = String.◌∷◌ "|" (strokes n s)

pub show_list : List ℕ → String
unfolding strokes
show_list [] = ""
show_list (n ∷ ns) = strokes n (show_list ns)

abbrev one_more : List ℕ → List ℕ
one_more [] = []
one_more (n ∷ ns) = suc n ∷ ns

pub parse_list : String → List ℕ
parse_list String.[] = []
parse_list (String.◌∷◌ c s) =
    let rest = parse_list s in if code c == b',' then 0 ∷ rest else one_more rest

parse_list-strokes : (n : ℕ) (s : String) → parse_list (strokes n s) ≡ n ∷ parse_list s
unfolding parse_list strokes
parse_list-strokes zero s = refl
parse_list-strokes (suc n) s = ap one_more (parse_list-strokes n s)

pub parse-show_list : (ns : List ℕ) → parse_list (show_list ns) ≡ ns
unfolding parse_list show_list
parse-show_list [] = refl
parse-show_list (n ∷ ns) =
    parse_list-strokes n (show_list ns) ∙ ap (λ ms. n ∷ ms) (parse-show_list ns)

ip_numbers : IpAddr → ℕ → List ℕ
ip_numbers (v4 x) port = 0 ∷ port ∷ x.a ∷ x.b ∷ x.c ∷ x.d ∷ []
ip_numbers (v6 bytes) port = 1 ∷ port ∷ bytes

of_numbers : List ℕ → Option SocketAddr
of_numbers (zero ∷ port ∷ a ∷ b ∷ c ∷ d ∷ []) =
    some (record { ip = v4 (record { a = a; b = b; c = c; d = d }); port = port })
of_numbers (suc zero ∷ port ∷ bytes) = some (record { ip = v6 bytes; port = port })
of_numbers _ = none

of_numbers-ip_numbers :
    (ip : IpAddr) (port : ℕ)
    → of_numbers (ip_numbers ip port) ≡ some (record { ip = ip; port = port })
unfolding of_numbers ip_numbers
of_numbers-ip_numbers (v4 x) port = refl
of_numbers-ip_numbers (v6 bytes) port = refl

pub strokes_parse : String → Option SocketAddr
unfolding of_numbers parse_list
strokes_parse text = of_numbers (parse_list text)

pub strokes_show : SocketAddr → String
unfolding ip_numbers show_list
strokes_show s = show_list (ip_numbers s.ip s.port)

pub strokes_parse-show : (s : SocketAddr) → strokes_parse (strokes_show s) ≡ some s
unfolding strokes_parse strokes_show
strokes_parse-show s =
    ap of_numbers (parse-show_list (ip_numbers s.ip s.port)) ∙ of_numbers-ip_numbers s.ip s.port

-- An address is written as its numbers in strokes.
unfoldable pub strokes_syntax : AddrSyntax
unfolding strokes_parse strokes_show show_list
strokes_syntax = record {
  parse_socket_addr = strokes_parse;
  show_ipv6 = show_list;
  show_socket_addr = strokes_show;
  parse-show = strokes_parse-show;
}

abbrev pub private_addr : SocketAddr
private_addr = record { ip = v4 (record { a = 10; b = 0; c = 0; d = 5 }); port = 7 }

abbrev pub public_addr : SocketAddr
public_addr = record { ip = v4 (record { a = 8; b = 8; c = 4; d = 4 }); port = 9 }

-- What the syntax prints of the two.
abbrev pub private_text : String
private_text = ",|||||||,||||||||||,,,|||||,"

abbrev pub public_text : String
public_text = ",|||||||||,||||||||,||||||||,||||,||||,"

unfoldable pub channels : Channels
channels = record {
  send_error = λ tx m. if tx.receiver_dropped then some "channel closed" else none;
  refuses = λ tx m dropped. ("channel closed", rw dropped refl);
}

abbrev pub transaction_id : List ℕ
transaction_id = 1 ∷ 2 ∷ 3 ∷ 4 ∷ 5 ∷ 6 ∷ 7 ∷ 8 ∷ 9 ∷ 10 ∷ 11 ∷ 12 ∷ []

-- A SOFTWARE attribute with a text of three bytes.
abbrev pub software : Attribute
software = record { kind = 0x8022; value = 97 ∷ 98 ∷ 99 ∷ []; padding = 0 ∷ [] }

pub software-IsAttribute : IsAttribute software
unfolding align4
software-IsAttribute = record { kind_fits = omega arith; length_fits = omega arith; padded = refl }

pub software-IsIgnored : IsIgnored software
software-IsIgnored = record {
  not_mapped = omega arith;
  not_xor_mapped = omega arith;
  not_error = omega arith;
}

abbrev pub mapped_ip : Ipv4Addr
mapped_ip = record { a = 203; b = 0; c = 113; d = 9 }

-- A network that never answers.
abbrev pub dead_world : UdpWorld
dead_world = record {
  transaction_id = λ _. transaction_id;
  exchange = λ _ _ _. receive_failed "timed out";
}

abbrev pub agent : AgentState
agent = record {
  tx = record { id = 1; receiver_dropped = false };
  subdomain = "ssh";
  local_port = 22;
  local_host = "127.0.0.1";
  protocol = tcp;
  last_heartbeat = pos 500;
}

abbrev pub registry_of : AgentState → AgentRegistry
registry_of a = record { server_id = "server-1"; agents = ("agent-1", a) ∷ []; pending = [] }

abbrev pub driver : Driver
driver = record {
  no_constraint = "ON CONFLICT clause does not match any PRIMARY KEY or UNIQUE constraint";
  broken_constraint = "UNIQUE constraint failed";
  null_value = "unexpected null";
}

abbrev pub server_row : Server
server_row = record {
  id = "server-1";
  http_host = "h1.example";
  tcp_host = "t1.example";
  started_at = pos 1000;
  last_heartbeat = pos 2000;
  is_healthy = true;
}

abbrev pub agent_row : AgentRow
agent_row = record {
  id = "agent-1";
  subdomain = "ssh";
  server_id = "server-1";
  tunnel_id = none;
  local_port = 22;
  local_host = "127.0.0.1";
  protocol = "tcp";
  connection_token = "token";
  connected_at = pos 500;
  last_heartbeat = pos 500;
  active = true;
}

-- A server whose last heartbeat is old, and one that is alive; an agent on the first.
abbrev pub tables : Tables
tables = record {
  servers = server_row ∷ record server_row { id = "server-2"; last_heartbeat = pos 49_000 } ∷ [];
  agents = agent_row ∷ [];
}

-- Numbers in strokes in place of base64.
unfoldable pub list_base64 : Base64
unfolding show_list parse_list
list_base64 = record {
  encode = show_list;
  decode = λ text. some (parse_list text);
  decode-encode = λ bytes. ap some (parse-show_list bytes);
}
