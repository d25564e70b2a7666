-- ===== src/Tcp/Http/Statistics.antt =====
-- src/tcp/mod.rs: the statistics, and their HTTP handler.
use jrok_rs.Base.{ℕ, String, [], ◌∷◌, ltb, if◌then◌else◌}
use jrok_rs.Tcp.{Facilitator, session_count, active_count}
use jrok_rs.Tcp.Http.{Response, str, num, json}
use jrok_rs.Tcp.Session.{Tracker}

-- Floating-point numbers, as far as the statistics use them: 0.0, the quotient of two counters, and
-- a rate as a percentage with two digits.
pub record Floats : Type 1 where
  pub F64 : Type 0
  pub zero : F64
  pub quotient : ℕ → ℕ → F64
  pub show_percent : F64 → String

module _ (floats : Floats) where
  -- `SimpleConnectionTracker::get_stats`
  unfoldable pub get_stats : Tracker → ℕ × ℕ × ℕ × floats.F64
  get_stats t = (
    t.total_attempts,
    t.direct_successes,
    t.relay_used,
    if ltb 0 t.total_attempts
        then floats.quotient t.direct_successes t.total_attempts
        else floats.zero,
  )

  -- `get_connection_stats`
  unfoldable pub get_connection_stats : Facilitator → Response
  unfolding get_stats active_count session_count
  get_connection_stats f =
      let (total, successes, relays, rate) = get_stats f.tracker in
      record {
        code = 200;
        body = json (
            ("total_attempts", num total)
            ∷ ("direct_successes", num successes)
            ∷ ("relay_used", num relays)
            ∷ ("success_rate", str (floats.show_percent rate))
            ∷ ("active_relays", num (active_count f))
            ∷ ("active_sessions", num (session_count f))
            ∷ []);
      }
