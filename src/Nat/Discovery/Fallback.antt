-- ===== src/Nat/Discovery/Fallback.antt =====
-- Detection when no STUN server can be asked.
use jrok_rs.Base.{
  ◌≡◌, refl, ◌∙◌, String, List, [], ◌∷◌, arith, none, some, true, false, if◌then◌else◌,
}
use jrok_rs.Base.Text.{◌+s◌}
use jrok_rs.Error.{internal}
use jrok_rs.Exec.{returns, fails}
use jrok_rs.Net.{AddrSyntax, SocketAddr, UdpWorld, show_ip}
use jrok_rs.Nat.{open_nat, unknown, is_private_ip}
use jrok_rs.Nat.Discovery.{NatDetector, try_stun_discovery, detect_by_ip, detect_from, detect}

-- No server of the list is written as a socket address: host names are not.
abbrev pub AllNames : AddrSyntax → List String → Type 0
AllNames syn [] = Unit {0}
AllNames syn (server ∷ servers) = (syn.parse_socket_addr server ≡ none) × AllNames syn servers

try_stun_discovery-name :
    (syn : AddrSyntax) (world : UdpWorld) (server bind_addr : String)
    → syn.parse_socket_addr server ≡ none
    → try_stun_discovery syn world server bind_addr
      ≡ fails (internal ("Invalid STUN server address: " +s server))
unfolding try_stun_discovery
try_stun_discovery-name syn world server bind_addr n = rw (n, try_stun_discovery) refl

detect_by_ip_lem :
    (syn : AddrSyntax) (bind_addr : String) (addr : SocketAddr)
    → syn.parse_socket_addr bind_addr ≡ some addr
    → detect_by_ip syn bind_addr
      ≡ returns (record {
        local_addr = bind_addr;
        public_ip = if is_private_ip addr.ip then "0.0.0.0" else show_ip syn addr.ip;
        public_port = if is_private_ip addr.ip then 0 else addr.port;
        nat_type = if is_private_ip addr.ip then unknown else open_nat;
        hairpinning = false;
      })
unfolding detect_by_ip
detect_by_ip_lem syn bind_addr addr p = ground arith

detect_from-names :
    (syn : AddrSyntax) (world : UdpWorld) (servers : List String) (bind_addr : String)
    → AllNames syn servers
    → detect_from syn world servers bind_addr ≡ detect_by_ip syn bind_addr
unfolding detect_from
detect_from-names syn world [] bind_addr n = refl
detect_from-names syn world (server ∷ servers) bind_addr n =
    rw (try_stun_discovery-name syn world server bind_addr n.0, detect_from)
      (detect_from-names syn world servers bind_addr n.1)

-- If the servers of a detector are given by host names, which the address parser refuses, then
-- detection never asks one: whatever the network does, a private bind address gives an unknown NAT
-- and the address 0.0.0.0, and a public one gives no NAT and the bind address itself.
pub detect-names :
    (syn : AddrSyntax) (world : UdpWorld) (detector : NatDetector) (bind_addr : String)
    (addr : SocketAddr)
    → AllNames syn detector.stun_servers
    → syn.parse_socket_addr bind_addr ≡ some addr
    → ((is_private_ip addr.ip ≡ true
          → detect syn world detector bind_addr
            ≡ returns (record {
              local_addr = bind_addr;
              public_ip = "0.0.0.0";
              public_port = 0;
              nat_type = unknown;
              hairpinning = false;
            }))
        × (is_private_ip addr.ip ≡ false
            → detect syn world detector bind_addr
              ≡ returns (record {
                local_addr = bind_addr;
                public_ip = show_ip syn addr.ip;
                public_port = addr.port;
                nat_type = open_nat;
                hairpinning = false;
              })))
unfolding detect
detect-names syn world detector bind_addr addr n p =
    let e =
      detect_from-names syn world detector.stun_servers bind_addr n
      ∙ detect_by_ip_lem syn bind_addr addr p in
    (λ private. e ∙ rw private refl, λ public. e ∙ rw public refl)
