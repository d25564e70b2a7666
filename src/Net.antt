-- ===== src/Net.antt =====
-- Addresses of std::net: the types, the text of an IPv4 address, and the parser of socket addresses
-- as an interface.
use jrok_rs.Base.{ℕ, ◌<◌, ◌≡◌, String, Option, some, List}
use jrok_rs.Base.Text.{◌+s◌, show_ℕ}

-- The four octets of an Ipv4Addr.
pub record Ipv4Addr : Type 0 where
  pub a : ℕ
  pub b : ℕ
  pub c : ℕ
  pub d : ℕ

-- Each octet is a byte.
abbrev pub IsOctets : Ipv4Addr → Type 0
IsOctets x = (x.a < 256) × (x.b < 256) × (x.c < 256) × (x.d < 256)

pub data IpAddr : Type 0 where
  v4 : Ipv4Addr → IpAddr
  v6 : List ℕ → IpAddr

pub record SocketAddr : Type 0 where
  pub ip : IpAddr
  pub port : ℕ

-- `Ipv4Addr::to_string`
unfoldable pub show_ipv4 : Ipv4Addr → String
show_ipv4 x = show_ℕ x.a +s "." +s show_ℕ x.b +s "." +s show_ℕ x.c +s "." +s show_ℕ x.d

-- What the program asks of the standard library's address syntax: `parse::<SocketAddr>()`, and
-- `to_string` of an IPv6 address and of a socket address, which parses back.
pub record AddrSyntax : Type 0 where
  pub parse_socket_addr : String → Option SocketAddr
  pub show_ipv6 : List ℕ → String
  pub show_socket_addr : SocketAddr → String
  pub parse-show : (s : SocketAddr) → parse_socket_addr (show_socket_addr s) ≡ some s

-- `IpAddr::to_string`
unfoldable pub show_ip : AddrSyntax → IpAddr → String
unfolding show_ipv4
show_ip syn (v4 x) = show_ipv4 x
show_ip syn (v6 x) = syn.show_ipv6 x

-- How the socket calls of one UDP exchange end: the first that fails, with its error text, or the
-- datagram that arrives.
pub data Exchange : Type 0 where
  bind_failed timeout_failed send_failed receive_failed : String → Exchange
  received : List ℕ → Exchange

-- The world of one discovery: the random transaction id drawn for the server of this address text,
-- and what the socket calls do, given the local address, the server's address and the request.
pub record UdpWorld : Type 0 where
  pub transaction_id : String → List ℕ
  pub exchange : String → SocketAddr → List ℕ → Exchange
