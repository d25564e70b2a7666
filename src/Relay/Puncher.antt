-- ===== src/Relay/Puncher.antt =====
-- src/relay/mod.rs: UdpHolePuncher. The socket, the address syntax and the clock are arguments.
pub mod Halts
use jrok_rs.Base.{ℕ, zero, suc, Option, none, some, String, List, [], ◌∷◌, take, ltb, if◌then◌else◌}
use jrok_rs.Base.Text.{◌+s◌}
use jrok_rs.Error.{Result, ok, err, internal}
use jrok_rs.Exec.{Exec, returns, fails, panics, out_of_fuel, ◌>>=◌}
use jrok_rs.Net.{AddrSyntax, SocketAddr}

pub record UdpHolePuncher : Type 0 where
  pub punch_duration_ms : ℕ
  pub punch_interval_ms : ℕ

-- `UdpHolePuncher::new`
unfoldable pub new : UdpHolePuncher
new = record { punch_duration_ms = 5000; punch_interval_ms = 200 }

-- The error of `bind`, if it fails, and the milliseconds since the start as each test of the loop
-- reads them, none if the clock has gone back.
pub record Socket : Type 0 where
  pub bind : String → Option String
  pub elapsed : ℕ → Option ℕ

pub record Packet : Type 0 where
  pub destination : SocketAddr
  pub bytes : List ℕ

abbrev pub unwrap_or_zero : Option ℕ → ℕ
unwrap_or_zero none = 0
unwrap_or_zero (some ms) = ms

-- The `while` loop from its test number `round` on: the packets handed to the socket. Whether one
-- goes out does not matter.
unfoldable pub punch_from :
    UdpHolePuncher → Socket → (fuel round : ℕ) → SocketAddr → Exec (List Packet)
punch_from puncher socket zero round remote = out_of_fuel
punch_from puncher socket (suc fuel) round remote =
    let rest = punch_from puncher socket fuel (suc round) remote in
    if ltb (unwrap_or_zero (socket.elapsed round)) puncher.punch_duration_ms
    then (do packets ← rest; returns (record { destination = remote; bytes = 0 ∷ [] } ∷ packets))
    else returns []

-- `punch_hole`: the packets that it has handed to the socket.
unfoldable pub punch_hole :
    AddrSyntax
    → UdpHolePuncher
    → Socket
    → (fuel : ℕ) (local_addr remote_addr : String) → Exec (List Packet)
unfolding punch_from
punch_hole syn puncher socket fuel local_addr remote_addr = elim (socket.bind local_addr) [
  | some e ↦ fails (internal ("Failed to bind UDP socket: " +s e))
  | none ↦ elim (syn.parse_socket_addr remote_addr) [
    | none ↦ fails (internal "Invalid remote address: invalid socket address syntax")
    | some remote ↦ punch_from puncher socket fuel 0 remote
  ]
]

-- What comes of waiting for a datagram.
pub data Arrival : Type 0 where
  datagram : List ℕ → Arrival
  receive_error : String → Arrival
  timed_out : Arrival

-- `listen_for_connection`: the buffer holds 65536 bytes of a datagram.
unfoldable pub listen_for_connection : Socket → (local_addr : String) → Arrival → Result (List ℕ)
listen_for_connection socket local_addr arrival = elim (socket.bind local_addr) [
  | some e ↦ err (internal ("Failed to bind UDP socket: " +s e))
  | none ↦ elim arrival [
    | datagram bytes ↦ ok (take 65536 bytes)
    | receive_error e ↦ err (internal ("Receive error: " +s e))
    | timed_out ↦ err (internal "Timeout waiting for connection")
  ]
]
