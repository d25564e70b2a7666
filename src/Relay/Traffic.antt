-- ===== src/Relay/Traffic.antt =====
-- The relay server: bytes counted, relays opened and closed.
use jrok_rs.Base.{
  ℕ, ◌+◌, ◌%◌, ◌^◌, ◌<◌, ◌≡◌, refl, ◌∙◌, ap, true, none, some, String, List, [], ◌∷◌, arith, length,
  ltb, if◌then◌else◌, Option-cases, inl, inr,
}
use jrok_rs.Base.Int.{pos, as_i64, sub_i64, ltb_ℤ, as_i64_small, ltb_ℤ-sub_i64}
use jrok_rs.Base.Map.{get, Unique, get-insert_self, get-remove_self, get-retain}
use jrok_rs.Relay.{
  RelayConnection, RelayServer, create_relay, relay_to_agent, relay_to_client, close_relay,
  cleanup_relays, add_bytes, new_relay, mark_failed, ConnectionStats,
}

-- A datagram on its way to one side of a relay.
pub data Datagram : Type 0 where
  to_agent to_client : List ℕ → Datagram

abbrev pub payload : Datagram → List ℕ
payload (to_agent bytes) = bytes
payload (to_client bytes) = bytes

unfoldable pub relay : String → Datagram → RelayServer → RelayServer
unfolding relay_to_agent relay_to_client
relay session_id (to_agent bytes) s = (relay_to_agent session_id bytes s).0
relay session_id (to_client bytes) s = (relay_to_client session_id bytes s).0

unfoldable pub relay_all : String → List Datagram → RelayServer → RelayServer
unfolding relay
relay_all session_id [] s = s
relay_all session_id (d ∷ ds) s = relay_all session_id ds (relay session_id d s)

abbrev pub volume : List Datagram → ℕ
volume [] = 0
volume (d ∷ ds) = length (payload d) + volume ds

relay-get :
    (session_id : String) (d : Datagram) (s : RelayServer) (conn : RelayConnection)
    → get session_id s.connections ≡ some conn
    → get session_id (relay session_id d s).connections ≡ some (add_bytes (payload d) conn)
unfolding relay
relay-get session_id (to_agent bytes) s conn found =
    rw (found, relay, relay_to_agent)
      (get-insert_self session_id (add_bytes bytes conn) s.connections)
relay-get session_id (to_client bytes) s conn found =
    rw (found, relay, relay_to_client)
      (get-insert_self session_id (add_bytes bytes conn) s.connections)

relay_all-get :
    (session_id : String) (ds : List Datagram) (s : RelayServer) (conn : RelayConnection)
    → get session_id s.connections ≡ some conn
    → conn.bytes_relayed < 2 ^ 64
    → (conn' : RelayConnection) × (get session_id (relay_all session_id ds s).connections
        ≡ some conn')
      × (conn'.bytes_relayed ≡ (conn.bytes_relayed + volume ds) % 2 ^ 64)
unfolding relay_all
relay_all-get session_id [] s conn found b = (conn, found, omega arith)
relay_all-get session_id (d ∷ ds) s conn found b =
    let later =
      relay_all-get session_id ds (relay session_id d s) (add_bytes (payload d) conn)
        (relay-get session_id d s conn found) (omega arith) in
    (later.0, later.1, omega (arith, later.2))

-- A relay that has just been created counts, after any datagrams in either direction, the sum of
-- their lengths, modulo the width of a u64.
relay_all-create_relay :
    (session_id client_addr agent_id : String) (now_ms : ℕ) (ds : List Datagram) (s : RelayServer)
    → let created = (create_relay session_id client_addr agent_id now_ms s).0 in
      (conn : RelayConnection) × (get session_id (relay_all session_id ds created).connections
        ≡ some conn)
      × (conn.bytes_relayed ≡ volume ds % 2 ^ 64)
unfolding create_relay
relay_all-create_relay session_id client_addr agent_id now_ms ds s =
    let fresh = new_relay session_id client_addr agent_id now_ms in
    let counted =
      relay_all-get session_id ds (create_relay session_id client_addr agent_id now_ms s).0 fresh
        (get-insert_self session_id fresh s.connections) (omega arith) in
    (counted.0, counted.1, omega (arith, counted.2))

relay-missing :
    (session_id : String) (d : Datagram) (s : RelayServer)
    → get session_id s.connections ≡ none
    → relay session_id d s ≡ s
unfolding relay
relay-missing session_id (to_agent bytes) s missing = rw (missing, relay, relay_to_agent) refl
relay-missing session_id (to_client bytes) s missing = rw (missing, relay, relay_to_client) refl

relay_all-missing :
    (session_id : String) (ds : List Datagram) (s : RelayServer)
    → get session_id s.connections ≡ none
    → relay_all session_id ds s ≡ s
unfolding relay_all
relay_all-missing session_id [] s missing = refl
relay_all-missing session_id (d ∷ ds) s missing =
    ap (relay_all session_id ds) (relay-missing session_id d s missing)
    ∙ relay_all-missing session_id ds s missing

close_relay-get :
    (session_id : String) (now_ms : ℕ) (s : RelayServer)
    → get session_id (close_relay session_id now_ms s).connections ≡ none
unfolding close_relay
close_relay-get session_id now_ms s = elim (Option-cases (get session_id s.connections)) [
  | inl missing ↦ rw (missing, close_relay) (get-remove_self session_id s.connections)
  | inr found ↦ rw (found.1, close_relay) (get-remove_self session_id s.connections)
]

-- Closing a relay takes it out; datagrams that come after it change nothing any more.
pub relay_all-close_relay :
    (session_id : String) (now_ms : ℕ) (ds : List Datagram) (s : RelayServer)
    → let closed = close_relay session_id now_ms s in
      (get session_id closed.connections ≡ none) × (relay_all session_id ds closed ≡ closed)
relay_all-close_relay session_id now_ms ds s = (gone, relay_all-missing session_id ds closed gone)
  where
    closed : RelayServer
    closed = close_relay session_id now_ms s

    gone : get session_id closed.connections ≡ none
    gone = close_relay-get session_id now_ms s

-- Closing a relay whose session the shared tracker knows counts one relay use, modulo the width of a
-- usize, and marks the session as relayed and completed at the time of the call.
pub close_relay-mark_failed :
    (session_id : String) (now_ms : ℕ) (s : RelayServer) (conn : RelayConnection)
    (stat : ConnectionStats)
    → get session_id s.connections ≡ some conn
    → get session_id s.tracker.stats ≡ some stat
    → let tracker = (close_relay session_id now_ms s).tracker in
      (tracker.relay_used ≡ (s.tracker.relay_used + 1) % 2 ^ 64)
      × (get session_id tracker.stats
          ≡ some (record stat { completed_at = some (as_i64 now_ms); relay_used = true }))
unfolding close_relay mark_failed
close_relay-mark_failed session_id now_ms s conn stat found known = (
  rw (found, close_relay, mark_failed, known) refl,
  rw (found, close_relay, mark_failed, known) (get-insert_self session_id _ s.tracker.stats),
)

-- For a clock and an age below 2^63 milliseconds, the cleanup of a server whose sessions are
-- distinct keeps a relay created at the time t exactly while now < t + age, and keeps it as it is,
-- with its byte count; the tracker stays as it is.
pub cleanup_relays_lem :
    (s : RelayServer) (now_ms max_age_ms t : ℕ) (session_id : String) (conn : RelayConnection)
    → Unique s.connections
    → now_ms < 2 ^ 63
    → max_age_ms < 2 ^ 63
    → get session_id s.connections ≡ some conn
    → conn.created_at ≡ pos t
    → let s' = cleanup_relays now_ms (pos max_age_ms) s in
      (get session_id s'.connections ≡ (if ltb now_ms (t + max_age_ms) then some conn else none))
      × (s'.tracker ≡ s.tracker)
unfolding cleanup_relays
cleanup_relays_lem s now_ms max_age_ms t session_id conn u n m found created = (
  get-retain (λ c. ltb_ℤ (sub_i64 (as_i64 now_ms) (pos max_age_ms)) c.created_at) session_id
        s.connections u
      ∙ rw (found, as_i64_small now_ms n, created, ltb_ℤ-sub_i64 now_ms max_age_ms t n m) refl,
  refl,
)
