-- ===== src/Nat/Punch.antt =====
-- src/nat/mod.rs: HolePuncher. The UDP socket is an argument; the packets handed to it are listed.
pub mod Laws
use jrok_rs.Base.{ℕ, zero, suc, String, List, [], ◌∷◌, Option, none, some}
use jrok_rs.Base.Text.{◌+s◌}
use jrok_rs.Error.{internal}
use jrok_rs.Exec.{Exec, returns, fails, panics, out_of_fuel, ◌>>=◌}
use jrok_rs.Net.{AddrSyntax, SocketAddr, UdpWorld}
use jrok_rs.Nat.{NatType, NatInfo, HolePunchStrategy, direct, hole_punch, relay, determine_strategy}
use jrok_rs.Nat.Discovery.{NatDetector, new_detector, detect}

pub record HolePuncher : Type 0 where
  pub nat_detector : NatDetector

-- `HolePuncher::new`
unfoldable pub new_puncher : HolePuncher
unfolding new_detector
new_puncher = record { nat_detector = new_detector }

-- The error text of `bind` and of `set_write_timeout`, if they fail.
pub record PunchSocket : Type 0 where
  pub bind : String → Option String
  pub set_write_timeout : Option String

pub record Packet : Type 0 where
  pub destination : SocketAddr
  pub bytes : List ℕ

-- The `for i in 0..punch_count` loop: whether a packet goes out does not matter.
unfoldable pub punch_packets : ℕ → SocketAddr → List Packet
punch_packets zero remote = []
punch_packets (suc n) remote =
    record { destination = remote; bytes = 0 ∷ 0 ∷ 0 ∷ 0 ∷ [] } ∷ punch_packets n remote

-- The packets handed to the socket, and the address that is returned.
unfoldable pub perform_hole_punch :
    AddrSyntax → PunchSocket → NatInfo → String → Exec (List Packet × String)
unfolding punch_packets
perform_hole_punch syn socket local_nat remote_public = elim (syn.parse_socket_addr remote_public) [
  | none ↦ fails (internal "Invalid remote address: invalid socket address syntax")
  | some remote ↦ elim (socket.bind local_nat.local_addr) [
    | some e ↦ fails (internal ("Failed to bind UDP socket: " +s e))
    | none ↦ elim socket.set_write_timeout [
      | some e ↦ fails (internal ("Failed to set socket timeout: " +s e))
      | none ↦ returns (punch_packets 5 remote, remote_public)
    ]
  ]
]

follow_strategy :
    AddrSyntax → PunchSocket → NatInfo → String → HolePunchStrategy → Exec (List Packet × String)
unfolding perform_hole_punch
follow_strategy syn socket nat_info remote_public direct = returns ([], remote_public)
follow_strategy syn socket nat_info remote_public hole_punch =
    perform_hole_punch syn socket nat_info remote_public
follow_strategy syn socket nat_info remote_public relay =
    fails (internal "Direct connection not possible, relay required")

unfoldable pub punch_hole :
    AddrSyntax
    → UdpWorld
    → PunchSocket
    → HolePuncher
    → String
    → String
    → NatType
    → Exec (List Packet × String)
unfolding follow_strategy determine_strategy
punch_hole syn world socket puncher local_addr remote_public remote_nat_type = do
  nat_info ← detect syn world puncher.nat_detector local_addr
  follow_strategy syn socket nat_info remote_public
      (determine_strategy nat_info.nat_type remote_nat_type)
