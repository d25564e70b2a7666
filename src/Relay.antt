-- ===== src/Relay.antt =====
-- src/relay/mod.rs: the connection tracker and the relay server. Time is an argument.
pub mod Counters
pub mod Traffic
pub mod Puncher
use jrok_rs.Base.{
  ℕ, ◌+◌, ◌%◌, ◌^◌, Bool, true, false, Option, none, some, String, List, [], length, ltb,
  if◌then◌else◌,
}
use jrok_rs.Base.Int.{ℤ, as_i64, sub_i64, ltb_ℤ}
use jrok_rs.Base.Map.{StrMap, get, insert, remove, retain}
use jrok_rs.Base.Text.{◌+s◌}
use jrok_rs.Error.{Result, ok, err, bad_request}
use jrok_rs.Tcp.Http.Statistics.{Floats}

pub record ConnectionStats : Type 0 where
  pub session_id : String
  pub subdomain : String
  pub client_addr : String
  pub agent_id : String
  pub direct_attempt : Bool
  pub direct_success : Bool
  pub relay_used : Bool
  pub latency_ms : ℕ
  pub created_at : ℤ
  pub completed_at : Option ℤ

pub record ConnectionTracker : Type 0 where
  pub stats : StrMap ConnectionStats
  pub total_attempts : ℕ
  pub direct_successes : ℕ
  pub relay_used : ℕ

-- `fetch_add(1)` on an AtomicUsize.
abbrev pub fetch_add_one : ℕ → ℕ
fetch_add_one n = (n + 1) % 2 ^ 64

unfoldable pub new_tracker : ConnectionTracker
new_tracker = record { stats = []; total_attempts = 0; direct_successes = 0; relay_used = 0 }

unfoldable pub track_attempt :
    (session_id subdomain client_addr agent_id : String)
    → Bool
    → (now_ms : ℕ) → ConnectionTracker
    → ConnectionTracker
unfolding insert as_i64
track_attempt session_id subdomain client_addr agent_id direct_attempt now_ms t = record t {
  total_attempts = fetch_add_one t.total_attempts;
  stats =
      insert session_id
        (record {
          session_id = session_id;
          subdomain = subdomain;
          client_addr = client_addr;
          agent_id = agent_id;
          direct_attempt = direct_attempt;
          direct_success = false;
          relay_used = false;
          latency_ms = 0;
          created_at = as_i64 now_ms;
          completed_at = none;
        })
        t.stats;
}

unfoldable pub mark_success :
    String → (latency_ms : ℕ) → Bool → (now_ms : ℕ) → ConnectionTracker → ConnectionTracker
unfolding get insert as_i64
mark_success session_id latency_ms is_direct now_ms t = elim (get session_id t.stats) [
  | none ↦ t
  | some stat ↦
      let stat' = record stat {
        direct_success = true;
        latency_ms = latency_ms;
        completed_at = some (as_i64 now_ms);
      } in
      let t' = record t { stats = insert session_id stat' t.stats } in
      if is_direct
      then record t' { direct_successes = fetch_add_one t.direct_successes }
      else record t' { relay_used = fetch_add_one t.relay_used }
]

unfoldable pub mark_failed : String → Bool → (now_ms : ℕ) → ConnectionTracker → ConnectionTracker
unfolding get insert as_i64
mark_failed session_id used now_ms t = elim (get session_id t.stats) [
  | none ↦ t
  | some stat ↦
      let stat' = record stat { completed_at = some (as_i64 now_ms) } in
      if used
      then record t {
        stats = insert session_id (record stat' { relay_used = true }) t.stats;
        relay_used = fetch_add_one t.relay_used;
      }
      else record t { stats = insert session_id stat' t.stats }
]

-- `stat.created_at > cutoff`
unfoldable pub cleanup_stats :
    (now_ms : ℕ) → (max_age_ms : ℤ) → ConnectionTracker → ConnectionTracker
unfolding retain as_i64 sub_i64
cleanup_stats now_ms max_age_ms t = record t {
  stats = retain (λ _ stat. ltb_ℤ (sub_i64 (as_i64 now_ms) max_age_ms) stat.created_at) t.stats;
}

module _ (floats : Floats) where
  unfoldable pub direct_success_rate : ConnectionTracker → floats.F64
  direct_success_rate t =
      if ltb 0 t.total_attempts
      then floats.quotient t.direct_successes t.total_attempts
      else floats.zero

  -- total_attempts, direct_successes, relay_used and success_rate.
  unfoldable pub get_stats : ConnectionTracker → ℕ × ℕ × ℕ × floats.F64
  get_stats t = (
    t.total_attempts,
    t.direct_successes,
    t.relay_used,
    if ltb 0 t.total_attempts
        then floats.quotient t.direct_successes t.total_attempts
        else floats.zero,
  )

pub record RelayConnection : Type 0 where
  pub session_id : String
  pub client_addr : String
  pub agent_id : String
  pub client_socket : Option String
  pub agent_socket : Option String
  pub bytes_relayed : ℕ
  pub created_at : ℤ

-- The relay server with the tracker that it shares.
pub record RelayServer : Type 0 where
  pub connections : StrMap RelayConnection
  pub tracker : ConnectionTracker

unfoldable pub new_server : ConnectionTracker → RelayServer
new_server tracker = record { connections = []; tracker = tracker }

-- The `RelayConnection` that `create_relay` stores.
abbrev pub new_relay : (session_id client_addr agent_id : String) (now_ms : ℕ) → RelayConnection
new_relay session_id client_addr agent_id now_ms = record {
  session_id = session_id;
  client_addr = client_addr;
  agent_id = agent_id;
  client_socket = none;
  agent_socket = none;
  bytes_relayed = 0;
  created_at = as_i64 now_ms;
}

unfoldable pub create_relay :
    (session_id client_addr agent_id : String) (now_ms : ℕ)
    → RelayServer
    → RelayServer × Result String
unfolding insert as_i64
create_relay session_id client_addr agent_id now_ms s = (
  record s {
    connections =
        insert session_id (new_relay session_id client_addr agent_id now_ms) s.connections;
  },
  ok ("relay:" +s session_id),
)

-- `bytes_relayed += data.len() as u64`
abbrev pub add_bytes : List ℕ → RelayConnection → RelayConnection
add_bytes bytes conn = record conn { bytes_relayed = (conn.bytes_relayed + length bytes) % 2 ^ 64 }

unfoldable pub relay_to_agent : String → List ℕ → RelayServer → RelayServer × Result (Unit {0})
unfolding get insert
relay_to_agent session_id bytes s = elim (get session_id s.connections) [
  | none ↦ (s, err (bad_request "Relay connection not found"))
  | some conn ↦
      (record s { connections = insert session_id (add_bytes bytes conn) s.connections }, ok tt)
]

unfoldable pub relay_to_client : String → List ℕ → RelayServer → RelayServer × Result (Unit {0})
unfolding get insert
relay_to_client session_id bytes s = elim (get session_id s.connections) [
  | none ↦ (s, err (bad_request "Relay connection not found"))
  | some conn ↦
      (record s { connections = insert session_id (add_bytes bytes conn) s.connections }, ok tt)
]

unfoldable pub close_relay : String → (now_ms : ℕ) → RelayServer → RelayServer
unfolding get remove mark_failed
close_relay session_id now_ms s =
    let s' = record s { connections = remove session_id s.connections } in
    elim (get session_id s.connections) [
      | none ↦ s'
      | some conn ↦ record s' { tracker = mark_failed session_id true now_ms s.tracker }
    ]

unfoldable pub active_count : RelayServer → ℕ
active_count s = length s.connections

unfoldable pub cleanup_relays : (now_ms : ℕ) → (max_age_ms : ℤ) → RelayServer → RelayServer
unfolding retain as_i64 sub_i64
cleanup_relays now_ms max_age_ms s = record s {
  connections =
      retain (λ _ conn. ltb_ℤ (sub_i64 (as_i64 now_ms) max_age_ms) conn.created_at) s.connections;
}
