-- ===== src/Cluster/Flag.antt =====
-- What the flag of a server says after a tick.
use jrok_rs.Base.{
  ℕ, ◌+◌, ◌^◌, ◌≤◌, ◌<◌, ◌≡◌, ◌≢◌, ◌↔◌, ◌⊎◌, ◌||◌, refl, Bool, true, false, Option, none, some,
  String, arith, eq_iff, ltb, if◌then◌else◌, Bool-cases, inl, inr,
}
use jrok_rs.Base.Int.{ℤ, pos, as_i64, sub_i64, add_i64, ltb_ℤ, as_i64_small, sub_i64_small}
use jrok_rs.Cluster.{
  Config, Tick, Row, ClusterState, Reply, answered, refused, lost, become_leader, renew_leadership,
  new_term, try_become_leader, on_state, heartbeat, get_cluster_state, is_id, is_none, leader_of,
  perform,
}
use jrok_rs.Cluster.Lease.{become_leader_fresh}

-- A tick that nothing disturbs: all statements are answered, and both reads find the row as it is.
pub record Undisturbed (tick : Tick) (row : Row) : Type 0 where
  pub sent : tick.heartbeat_sent ≡ true
  pub sees : tick.state_read ≡ some row
  pub sees_term : tick.term_read ≡ some row
  pub answers : tick.write_reply ≡ answered
  pub clock : tick.now_ms < 2 ^ 63

-- Whether the lease is over for a server whose timeout is `timeout`.
abbrev pub expired : (timeout now beat : ℕ) → Bool
expired timeout now beat = ltb (beat + timeout) now

ltb-expired :
    (timeout now beat : ℕ) (heartbeat : ℤ)
    → heartbeat ≡ pos beat
    → timeout < 2 ^ 63
    → now < 2 ^ 63
    → beat < 2 ^ 63
    → ltb_ℤ (as_i64 timeout) (sub_i64 (as_i64 now) heartbeat) ≡ expired timeout now beat
ltb-expired timeout now beat heartbeat h t n b =
    rw (as_i64_small timeout t, as_i64_small now n, h, sub_i64_small now beat n b) (ground arith)

ltb-overdue :
    (now beat : ℕ)
    → now < 2 ^ 63
    → ltb_ℤ (pos beat) (sub_i64 (pos now) (pos 15000)) ≡ expired 15000 now beat
ltb-overdue now beat n = rw (sub_i64_small now 15000 n (omega arith)) (ground arith)

-- The UPDATE, on a clock and a heartbeat that are not negative.
become_leader_lem :
    (server_id : String) (term : ℤ) (now : ℕ) (state : ClusterState) (beat : ℕ)
    → state.last_heartbeat ≡ pos beat
    → now < 2 ^ 63
    → become_leader server_id term (as_i64 now) (some state) ≡ (
        if is_none state.leader_id || expired 15000 now beat
        then (
          some
              (record { leader_id = some server_id; leader_term = term; last_heartbeat = pos now }),
          true,
        )
        else (some state, false))
unfolding become_leader
become_leader_lem server_id term now state beat b n =
    rw (as_i64_small now n, b, ltb-overdue now beat n) refl

-- The row and the flag after an undisturbed tick, for a timeout of 15 seconds at least.
abbrev pub outcome : Config → ℕ → ClusterState → ℕ → Row × Bool
outcome config now state beat =
    if is_none state.leader_id || expired config.leader_timeout_ms now beat
    then (
      some (record {
        leader_id = some config.server_id;
        leader_term = add_i64 state.leader_term (pos 1);
        last_heartbeat = pos now;
      }),
      true,
    )
    else if is_id config.server_id state.leader_id
    then (some (record state { last_heartbeat = pos now }), true)
    else (some state, false)

leader_of_named : (l : Option String) → l ≢ some "" → leader_of l ≡ l
leader_of_named none n = refl
leader_of_named (some s) n = ground (arith, eq_iff s "")

-- An undisturbed tick, with clock, heartbeat and timeout below 2^63, a timeout of 15 seconds at least
-- and no leader with the empty id, does this: if the row has no leader, or its heartbeat is older than
-- the timeout, the server becomes the leader with the next term; if the server is the leader, it
-- renews its heartbeat; else the row stays. Its flag is set in the first two cases and cleared in the
-- last.
pub heartbeat-outcome :
    (config : Config) (tick : Tick) (state : ClusterState) (beat : ℕ) (is_leader : Bool)
    → Undisturbed tick (some state)
    → state.leader_id ≢ some ""
    → state.last_heartbeat ≡ pos beat
    → beat < 2 ^ 63
    → 15000 ≤ config.leader_timeout_ms
    → config.leader_timeout_ms < 2 ^ 63
    → heartbeat config tick (some state) is_leader ≡ outcome config tick.now_ms state beat
unfolding heartbeat on_state get_cluster_state try_become_leader renew_leadership new_term
heartbeat-outcome config tick state beat is_leader u named b small low high =
    rw
      (
        u.sent,
        u.sees,
        u.answers,
        u.sees_term,
        become_leader_lem config.server_id (new_term (some (some state))) tick.now_ms state beat b
            u.clock,
        ltb-expired config.leader_timeout_ms tick.now_ms beat state.last_heartbeat b high u.clock
            small,
        leader_of_named state.leader_id named,
        as_i64_small tick.now_ms u.clock,
      )
      (ground arith)

leads_outcome :
    (config : Config) (now : ℕ) (state : ClusterState) (beat : ℕ)
    → let after = outcome config now state beat in
      (state' : ClusterState) × (after.0 ≡ some state')
      × ((after.1 ≡ true) ↔ (state'.leader_id ≡ some config.server_id))
leads_outcome config now state beat =
    elim (Bool-cases (is_none state.leader_id || expired config.leader_timeout_ms now beat)) [
      | inl free ↦ (
        record {
          leader_id = some config.server_id;
          leader_term = add_i64 state.leader_term (pos 1);
          last_heartbeat = pos now;
        },
        rw free refl,
        rw free (ground arith),
      )
      | inr taken ↦ elim (Bool-cases (is_id config.server_id state.leader_id)) [
        | inl mine ↦ (
          record state { last_heartbeat = pos now },
          rw (taken, mine) refl,
          rw (taken, mine) (ground (arith, is_id_leader config.server_id state.leader_id)),
        )
        | inr other ↦ (
          state,
          rw (taken, other) refl,
          rw (taken, other) (ground (arith, is_id_leader config.server_id state.leader_id)),
        )
      ]
    ]
  where
    is_id_leader :
        (server_id : String) (l : Option String) → (is_id server_id l ≡ true) ↔ (l ≡ some server_id)
    is_id_leader server_id none = ground arith
    is_id_leader server_id (some s) = ground (arith, eq_iff s server_id)

-- After an undisturbed tick, under the same conditions, the flag of the server is set exactly if the
-- row names it as the leader.
pub heartbeat-leader_id :
    (config : Config) (tick : Tick) (state : ClusterState) (beat : ℕ) (is_leader : Bool)
    → Undisturbed tick (some state)
    → state.leader_id ≢ some ""
    → state.last_heartbeat ≡ pos beat
    → beat < 2 ^ 63
    → 15000 ≤ config.leader_timeout_ms
    → config.leader_timeout_ms < 2 ^ 63
    → let after = heartbeat config tick (some state) is_leader in
      (state' : ClusterState) × (after.0 ≡ some state')
      × ((after.1 ≡ true) ↔ (state'.leader_id ≡ some config.server_id))
heartbeat-leader_id config tick state beat is_leader u named b small low high =
    rw (heartbeat-outcome config tick state beat is_leader u named b small low high)
      (leads_outcome config tick.now_ms state beat)

perform_fresh :
    (config : Config) (tick : Tick) (current : ClusterState) (other : String) (beat : ℕ)
    → current.leader_id ≡ some other
    → current.last_heartbeat ≡ pos beat
    → tick.now_ms ≤ beat + 15000
    → tick.now_ms < 2 ^ 63
    → try_become_leader config tick (some current) ≡ (some current, false)
unfolding try_become_leader
perform_fresh config tick current other beat led b late fits = replies tick.write_reply
  where
    replies :
        (reply : Reply)
        → perform reply
            (become_leader config.server_id (new_term tick.term_read) (as_i64 tick.now_ms))
            (some current)
          ≡ (some current, false)
    replies answered =
        become_leader_fresh current config.server_id other (new_term tick.term_read) tick.now_ms
          beat led b late fits
    replies refused = refl
    replies lost =
        rw
          (become_leader_fresh current config.server_id other (new_term tick.term_read) tick.now_ms
            beat led b late fits)
          refl

-- If a tick reads a row without a leader or with an expired one, but another server has taken the
-- lease by the time of its write, at most 15 seconds ago, then the row and its own flag stay as they
-- are: a server that was the leader goes on to hold itself for the leader beside the new one.
heartbeat-taken :
    (config : Config) (tick : Tick) (seen current : ClusterState) (other : String) (beat : ℕ)
    (is_leader : Bool)
    → tick.heartbeat_sent ≡ true
    → tick.state_read ≡ some (some seen)
    → (seen.leader_id ≡ none)
      ⊎ (ltb_ℤ (as_i64 config.leader_timeout_ms) (sub_i64 (as_i64 tick.now_ms) seen.last_heartbeat)
          ≡ true)
    → current.leader_id ≡ some other
    → other ≢ config.server_id
    → current.last_heartbeat ≡ pos beat
    → tick.now_ms ≤ beat + 15000
    → tick.now_ms < 2 ^ 63
    → (heartbeat config tick (some current) is_leader ≡ (some current, is_leader))
      × (current.leader_id ≢ some config.server_id)
unfolding heartbeat on_state get_cluster_state
heartbeat-taken config tick seen current other beat is_leader sent sees free led ne b late fits = (
  rw (sent, sees, perform_fresh config tick current other beat led b late fits) (ground arith),
  rw led (ground arith),
)
