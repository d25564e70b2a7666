-- ===== src/Nat/Punch/Laws.antt =====
-- What punch_hole does for each strategy.
use jrok_rs.Base.{◌≡◌, refl, String, [], arith, some, none, true, false}
use jrok_rs.Exec.{returns}
use jrok_rs.Net.{AddrSyntax, SocketAddr, UdpWorld}
use jrok_rs.Nat.{NatType, open_nat, is_private_ip}
use jrok_rs.Nat.Discovery.Fallback.{AllNames, detect-names}
use jrok_rs.Nat.Punch.{HolePuncher, PunchSocket, punch_packets, punch_hole}

-- With servers given by host names a hole punch never ends in the relay strategy: from a public
-- bind address it returns the remote address and sends nothing; from a private one, unless the
-- remote side has no NAT, it sends five packets to the remote address, if that parses and the
-- socket can be set up.
pub punch_hole-names :
    (syn : AddrSyntax) (world : UdpWorld) (socket : PunchSocket) (puncher : HolePuncher)
    (local_addr remote_public : String) (remote_nat : NatType) (addr remote : SocketAddr)
    → AllNames syn puncher.nat_detector.stun_servers
    → syn.parse_socket_addr local_addr ≡ some addr
    → syn.parse_socket_addr remote_public ≡ some remote
    → socket.bind local_addr ≡ none
    → socket.set_write_timeout ≡ none
    → (is_private_ip addr.ip ≡ false
        → punch_hole syn world socket puncher local_addr remote_public remote_nat
          ≡ returns ([], remote_public))
      × (is_private_ip addr.ip ≡ true
          → (remote_nat ≡ open_nat → ⊥)
          → punch_hole syn world socket puncher local_addr remote_public remote_nat
            ≡ returns (punch_packets 5 remote, remote_public))
unfolding punch_hole
punch_hole-names syn world socket puncher local_addr remote_public remote_nat addr remote n p q b
      w =
    let d = detect-names syn world puncher.nat_detector local_addr addr n p in
    (λ public. rw (d.1 public) refl, λ private not_open. rw (d.0 private) (ground arith))
