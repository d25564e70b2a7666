-- ===== src/Relay/Counters.antt =====
-- The counters of the tracker against the history of its calls.
use jrok_rs.Base.{ℕ, ◌+◌, Bool, none, some, String, List, [], ◌∷◌, if◌then◌else◌}
use jrok_rs.Base.Int.{ℤ}
use jrok_rs.Base.Map.{get}
use jrok_rs.Relay.{ConnectionTracker, track_attempt, mark_success, mark_failed, cleanup_stats}

pub data Call : Type 0 where
  tracks : (session_id subdomain client_addr agent_id : String) → Bool → (now_ms : ℕ) → Call
  succeeds : (session_id : String) (latency_ms : ℕ) (is_direct : Bool) (now_ms : ℕ) → Call
  fails : (session_id : String) (used : Bool) (now_ms : ℕ) → Call
  cleans : (now_ms : ℕ) (max_age_ms : ℤ) → Call

unfoldable pub step : Call → ConnectionTracker → ConnectionTracker
unfolding track_attempt mark_success mark_failed cleanup_stats
step (tracks session_id subdomain client_addr agent_id direct_attempt now_ms) t =
    track_attempt session_id subdomain client_addr agent_id direct_attempt now_ms t
step (succeeds session_id latency_ms is_direct now_ms) t =
    mark_success session_id latency_ms is_direct now_ms t
step (fails session_id used now_ms) t = mark_failed session_id used now_ms t
step (cleans now_ms max_age_ms) t = cleanup_stats now_ms max_age_ms t

unfoldable pub run : List Call → ConnectionTracker → ConnectionTracker
unfolding step
run [] t = t
run (c ∷ cs) t = run cs (step c t)

-- Counts 1 for a call on a session that the tracker knows.
abbrev pub known : ConnectionTracker → String → ℕ
known t session_id = elim (get session_id t.stats) [ none ↦ 0 | some stat ↦ 1 ]

-- What a call adds to each counter.
abbrev pub attempts_of : Call → ConnectionTracker → ℕ
attempts_of (tracks a b c d e f) t = 1
attempts_of _ t = 0

abbrev pub direct_of : Call → ConnectionTracker → ℕ
direct_of (succeeds session_id latency_ms is_direct now_ms) t =
    if is_direct then known t session_id else 0
direct_of _ t = 0

abbrev pub relayed_of : Call → ConnectionTracker → ℕ
relayed_of (succeeds session_id latency_ms is_direct now_ms) t =
    if is_direct then 0 else known t session_id
relayed_of (fails session_id used now_ms) t = if used then known t session_id else 0
relayed_of _ t = 0

-- The sum over a history that starts in a tracker.
unfoldable pub total : (Call → ConnectionTracker → ℕ) → List Call → ConnectionTracker → ℕ
total count [] t = 0
total count (c ∷ cs) t = count c t + total count cs (step c t)
