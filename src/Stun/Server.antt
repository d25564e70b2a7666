-- ===== src/Stun/Server.antt =====
-- src/stun/mod.rs: the server address and its text form.
pub mod RoundTrip
use Prim.Native.Char.{code}
use jrok_rs.Base.{ℕ, Option, none, some, String, List, [], ◌∷◌, ◌==◌, if◌then◌else◌}
use jrok_rs.Base.Text.{◌+s◌, show_ℕ, parse_uint}
use jrok_rs.Error.{Result, ok, err, internal}
use jrok_rs.Net.{AddrSyntax, SocketAddr}

pub record StunServer : Type 0 where
  pub addr : String
  pub port : ℕ

-- `StunServer::new`
abbrev pub new_server : (addr : String) (port : ℕ) → StunServer
new_server addr port = record { addr = addr; port = port }

-- Puts a character at the front of the first part.
abbrev onto_first : String → List String → List String
onto_first c [] = c ∷ []
onto_first c (part ∷ parts) = (c +s part) ∷ parts

-- `s.split(':')`
unfoldable pub split_colon : String → List String
split_colon String.[] = "" ∷ []
split_colon (String.◌∷◌ c s) =
    let parts = split_colon s in
    if code c == b':' then "" ∷ parts else onto_first (String.◌∷◌ c String.[]) parts

-- `s.parse::<u16>()`
unfoldable pub parse_u16 : String → Option ℕ
unfolding parse_uint
parse_u16 s = parse_uint 65536 s

from_parts : String → List String → Result StunServer
from_parts s (addr ∷ port ∷ []) = elim (parse_u16 port) [
  | none ↦ err (internal ("Invalid STUN server port: " +s port))
  | some p ↦ ok (new_server addr p)
]
from_parts s _ = err (internal ("Invalid STUN server address: " +s s))

-- `StunServer::from_str`
unfoldable pub from_str : String → Result StunServer
unfolding from_parts parse_u16 split_colon
from_str s = from_parts s (split_colon s)

-- `StunServer::to_socket_addr`
unfoldable pub to_socket_addr : AddrSyntax → StunServer → Result SocketAddr
to_socket_addr syn server =
    let text = server.addr +s ":" +s show_ℕ server.port in
    elim (syn.parse_socket_addr text) [
      | none ↦ err (internal ("Invalid STUN server address: " +s text))
      | some a ↦ ok a
    ]
