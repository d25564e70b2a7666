-- ===== src/Relay/Puncher/Halts.antt =====
-- The loop of the hole puncher ends, if the clock does not stand still.
use jrok_rs.Base.{
  ℕ, zero, suc, ◌+◌, ◌*◌, ◌≤◌, ◌<◌, ◌≡◌, refl, inl, inr, none, some, String, List, [], ◌∷◌, arith,
  ltb, ltb→lt, Bool-cases,
}
use jrok_rs.Exec.{returns}
use jrok_rs.Net.{AddrSyntax, SocketAddr}
use jrok_rs.Relay.Puncher.{new, Socket, Packet, unwrap_or_zero, punch_from, punch_hole}

-- Every test of the loop reads a clock that has run on for at least the sleeps before it.
abbrev pub RunsOn : Socket → Type 0
RunsOn socket = (round : ℕ) → 200 * round ≤ unwrap_or_zero (socket.elapsed round)

-- `n` packets of one zero byte.
abbrev pub zero_packets : ℕ → SocketAddr → List Packet
zero_packets zero remote = []
zero_packets (suc n) remote =
    record { destination = remote; bytes = 0 ∷ [] } ∷ zero_packets n remote

module _ (socket : Socket) (runs_on : RunsOn socket) (remote : SocketAddr) where
  punch_from_halts :
      (fuel round : ℕ)
      → 25 < round + fuel
      → round ≤ 25
      → (n : ℕ) × (punch_from new socket fuel round remote ≡ returns (zero_packets n remote))
        × (n + round ≤ 25)
  unfolding punch_from new
  punch_from_halts zero round enough low = absurd (omega arith)
  punch_from_halts (suc fuel) round enough low =
      elim (Bool-cases (ltb (unwrap_or_zero (socket.elapsed round)) 5000)) [
        | inr over ↦ (0, rw (over, punch_from) refl, omega arith)
        | inl going ↦
            let early : 200 * round < 5000 = omega (arith, ltb→lt _ _ going, runs_on round) in
            let (n, eq, bound) = punch_from_halts fuel (suc round) (omega arith) (omega arith) in
            (suc n, rw (going, eq, punch_from) refl, omega arith)
      ]

-- If the clock never reads less than the sleeps since the start, then with an address that is parsed
-- and a socket that is bound `punch_hole` returns, after at most 25 packets of a zero byte to that
-- address; 26 tests of the loop are enough.
pub punch_hole-returns :
    (syn : AddrSyntax) (socket : Socket) (fuel : ℕ) (local_addr remote_addr : String)
    (remote : SocketAddr)
    → RunsOn socket
    → 26 ≤ fuel
    → socket.bind local_addr ≡ none
    → syn.parse_socket_addr remote_addr ≡ some remote
    → (n : ℕ) × (punch_hole syn new socket fuel local_addr remote_addr
        ≡ returns (zero_packets n remote))
      × (n ≤ 25)
unfolding punch_hole
punch_hole-returns syn socket fuel local_addr remote_addr remote runs_on enough bound parsed =
    let (n, eq, few) = punch_from_halts socket runs_on remote fuel 0 (omega arith) (omega arith) in
    (n, rw (bound, parsed, punch_hole) eq, omega arith)
