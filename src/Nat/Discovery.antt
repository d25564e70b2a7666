-- ===== src/Nat/Discovery.antt =====
-- src/nat/mod.rs: the STUN request and response of NatDetector, and the detection built on them.
pub mod Scan
pub mod Panic
pub mod Fallback
use jrok_rs.Base.{
  ℕ, zero, suc, ◌+◌, ◌++◌, ◌&&◌, Bool, true, false, not, Option, none, some, String, List, [], ◌∷◌,
  ltb, leb, ◌==◌, if◌then◌else◌, length, take,
}
use jrok_rs.Base.{◌=s◌}
use jrok_rs.Base.Text.{◌+s◌, show_ℕ}
use jrok_rs.Bytes.{index, slice, be16, be32, align4, to_be16, to_be32}
use jrok_rs.Error.{Result, ok, err, internal}
use jrok_rs.Exec.{Exec, returns, fails, panics, out_of_fuel, ◌>>=◌}
use jrok_rs.Net.{
  AddrSyntax, SocketAddr, Exchange, bind_failed, timeout_failed, send_failed, receive_failed,
  received, UdpWorld, show_ip,
}
use jrok_rs.Nat.{NatType, NatInfo, open_nat, symmetric, unknown, is_private_ip}

pub record PublicEndpointDiscovered : Type 0 where
  pub public_ip : String
  pub public_port : ℕ
  pub stun_server : String

-- What the loop has found: the text of the address and the port.
abbrev pub Mapping : Type 0
Mapping = Option (String × ℕ)

-- The body of the `if attr_type == 0x0001 && attr_len >= 8`, at the offset behind the header.
unfoldable pub read_mapping : List ℕ → ℕ → Exec Mapping
unfolding be16 slice index
read_mapping response i = do
  port ← be16 response (i + 3)
  ip_bytes ← slice response (i + 5) (i + 9)
  b0 ← index ip_bytes 0
  b1 ← index ip_bytes 1
  b2 ← index ip_bytes 2
  returns (some (show_ℕ b0 +s "." +s show_ℕ b1 +s "." +s show_ℕ b2, port))

-- The `while i < response.len()` loop.
unfoldable pub scan_attributes : ℕ → List ℕ → ℕ → Exec Mapping
unfolding be16 align4 read_mapping
scan_attributes zero response i = out_of_fuel
scan_attributes (suc fuel) response i =
    if not (ltb i (length response))
    then returns none
    else if ltb (length response) (i + 4)
    then returns none
    else do
      attr_type ← be16 response i
      attr_len ← be16 response (i + 2)
      let rest = scan_attributes fuel response (i + 4 + align4 attr_len)
      if attr_type == 0x0001 && leb 8 attr_len then read_mapping response (i + 4) else rest

unfoldable pub to_discovered : String → Mapping → Exec PublicEndpointDiscovered
to_discovered stun_server none = fails (internal "No mapped address in STUN response")
to_discovered stun_server (some (ip, port)) =
    returns (record { public_ip = ip; public_port = port; stun_server = stun_server })

unfoldable pub parse_stun_response : List ℕ → String → Exec PublicEndpointDiscovered
unfolding be16 be32 scan_attributes to_discovered
parse_stun_response response stun_server =
    if ltb (length response) 20 then fails (internal "STUN response too short") else do
      msg_type ← be16 response 0
      msg_len ← be16 response 2
      magic_cookie ← be32 response 4
      if not (magic_cookie == 0x2112A442) then fails (internal "Invalid STUN magic cookie") else do
        found ← scan_attributes (suc (length response)) response 20
        to_discovered stun_server found

unfoldable pub create_stun_request : List ℕ → List ℕ
create_stun_request transaction_id =
    to_be16 0x0001 ++ to_be16 0x0000 ++ to_be32 0x2112A442 ++ transaction_id

on_exchange : String → Exchange → Exec PublicEndpointDiscovered
on_exchange stun_server (bind_failed e) = fails (internal ("Failed to bind UDP socket: " +s e))
on_exchange stun_server (timeout_failed e) =
    fails (internal ("Failed to set socket timeout: " +s e))
on_exchange stun_server (send_failed e) = fails (internal ("Failed to send STUN request: " +s e))
on_exchange stun_server (receive_failed e) =
    fails (internal ("Failed to receive STUN response: " +s e))
on_exchange stun_server (received datagram) = parse_stun_response (take 1024 datagram) stun_server

unfoldable pub try_stun_discovery :
    AddrSyntax → UdpWorld → String → String → Exec PublicEndpointDiscovered
unfolding create_stun_request on_exchange
try_stun_discovery syn world stun_server bind_addr = elim (syn.parse_socket_addr stun_server) [
  | none ↦ fails (internal ("Invalid STUN server address: " +s stun_server))
  | some server_addr ↦ on_exchange stun_server (
      world.exchange bind_addr server_addr (create_stun_request (world.transaction_id stun_server)))
]

-- `parse` of the bind address; the text of the parser's own error is left out.
parse_addr : AddrSyntax → String → Exec SocketAddr
parse_addr syn text = elim (syn.parse_socket_addr text) [
  | none ↦ fails (internal "Invalid address: invalid socket address syntax")
  | some a ↦ returns a
]

unfoldable pub detect_by_ip : AddrSyntax → String → Exec NatInfo
unfolding parse_addr
detect_by_ip syn bind_addr = do
  addr ← parse_addr syn bind_addr
  let private = is_private_ip addr.ip
  returns (record {
    local_addr = bind_addr;
    public_ip = if private then "0.0.0.0" else show_ip syn addr.ip;
    public_port = if private then 0 else addr.port;
    nat_type = if private then unknown else open_nat;
    hairpinning = false;
  })

-- What `detect` makes of an endpoint that a server has reported.
classify : AddrSyntax → String → PublicEndpointDiscovered → Exec NatInfo
unfolding parse_addr
classify syn bind_addr endpoint = do
  local_addr ← parse_addr syn bind_addr
  returns (record {
    local_addr = bind_addr;
    public_ip = endpoint.public_ip;
    public_port = endpoint.public_port;
    nat_type = if show_ip syn local_addr.ip =s endpoint.public_ip then open_nat else symmetric;
    hairpinning = false;
  })

-- The `for` loop of `detect`, and the fallback behind it.
detect_from : AddrSyntax → UdpWorld → List String → String → Exec NatInfo
unfolding detect_by_ip classify
detect_from syn world [] bind_addr = detect_by_ip syn bind_addr
detect_from syn world (server ∷ servers) bind_addr =
    elim (try_stun_discovery syn world server bind_addr) [
      | returns endpoint ↦ classify syn bind_addr endpoint
      | fails e ↦ detect_from syn world servers bind_addr
      | panics ↦ panics
      | out_of_fuel ↦ out_of_fuel
    ]

pub record NatDetector : Type 0 where
  pub stun_servers : List String

-- `NatDetector::new`
unfoldable pub new_detector : NatDetector
new_detector = record {
  stun_servers =
      "stun.l.google.com:19302" ∷ "stun1.l.google.com:19302" ∷ "stun.cloudflare.com:3478" ∷ [];
}

unfoldable pub with_servers : List String → NatDetector
with_servers servers = record { stun_servers = servers }

unfoldable pub detect : AddrSyntax → UdpWorld → NatDetector → String → Exec NatInfo
unfolding detect_from
detect syn world detector bind_addr = detect_from syn world detector.stun_servers bind_addr
