-- ===== src/Cluster/Lease.antt =====
-- A fresh lease is never taken over.
use jrok_rs.Base.{
  ℕ, ◌+◌, ◌^◌, ◌≤◌, ◌<◌, ◌≡◌, refl, Bool, true, false, Option, none, some, String, List, [], ◌∷◌,
  arith, ◌||◌, if◌then◌else◌, Bool-cases, inl, inr,
}
use jrok_rs.Base.Int.{ℤ, pos, as_i64, sub_i64, ltb_ℤ, as_i64_small, sub_i64_small}
use jrok_rs.Base.Map.{get}
use jrok_rs.Cluster.{
  Config, Tick, Row, ClusterState, Servers, Reply, answered, refused, lost, perform, become_leader,
  renew_leadership, try_become_leader, on_state, heartbeat, tick_server, run, read, is_id, is_none,
  keep_flag, flag_of,
}

-- The row names a leader with a term, and a heartbeat no older than `since`.
pub record Held (leader : String) (term : ℤ) (since : ℕ) (row : Row) : Type 0 where
  pub state : ClusterState
  pub beat : ℕ
  pub row_is : row ≡ some state
  pub leader_is : state.leader_id ≡ some leader
  pub term_is : state.leader_term ≡ term
  pub beat_is : state.last_heartbeat ≡ pos beat
  pub beat_fresh : since ≤ beat

-- The clock of the tick stands in the 15 seconds from `since`, below 2^63.
abbrev pub InLease : ℕ → Tick → Type 0
InLease since tick = (since ≤ tick.now_ms) × (tick.now_ms ≤ since + 15000) × (tick.now_ms < 2 ^ 63)

abbrev pub AllInLease : ℕ → List (Config × Tick) → Type 0
AllInLease since [] = Unit {0}
AllInLease since (t ∷ ts) = InLease since t.1 × AllInLease since ts

-- A takeover fails on a row with a leader whose heartbeat is fresh.
pub become_leader_fresh :
    (state : ClusterState) (server_id leader : String) (new_term : ℤ) (now beat : ℕ)
    → state.leader_id ≡ some leader
    → state.last_heartbeat ≡ pos beat
    → now ≤ beat + 15000
    → now < 2 ^ 63
    → become_leader server_id new_term (as_i64 now) (some state) ≡ (some state, false)
unfolding become_leader
become_leader_fresh state server_id leader new_term now beat l b late fits =
    rw (as_i64_small now fits, l, b, sub_i64_small now 15000 fits (omega arith)) (ground arith)

module _ (leader : String) (term : ℤ) (since : ℕ) where
  Held-some : (row : Row) (h : Held leader term since row) → Held leader term since (some h.state)
  Held-some row h = record {
    state = h.state;
    beat = h.beat;
    row_is = refl;
    leader_is = h.leader_is;
    term_is = h.term_is;
    beat_is = h.beat_is;
    beat_fresh = h.beat_fresh;
  }

  become_leader-Held :
      (server_id : String) (new_term : ℤ) (now : ℕ) (row : Row)
      → now ≤ since + 15000
      → now < 2 ^ 63
      → Held leader term since row
      → Held leader term since (become_leader server_id new_term (as_i64 now) row).0
  unfolding become_leader
  become_leader-Held server_id new_term now row late fits h =
      rw
        (
          h.row_is,
          become_leader_fresh h.state server_id leader new_term now h.beat h.leader_is h.beat_is
              (omega (arith, h.beat_fresh)) fits,
        )
        (Held-some row h)

  renew_leadership-Held :
      (server_id : String) (now : ℕ) (row : Row)
      → since ≤ now
      → now < 2 ^ 63
      → Held leader term since row
      → Held leader term since (renew_leadership server_id (as_i64 now) row).0
  unfolding renew_leadership
  renew_leadership-Held server_id now row early fits h =
      rw (h.row_is, as_i64_small now fits)
        (elim (Bool-cases (is_id server_id h.state.leader_id)) [
          | inl mine ↦
              rw (mine, renew_leadership)
                (record {
                  state = record h.state { last_heartbeat = pos now };
                  beat = now;
                  row_is = refl;
                  leader_is = h.leader_is;
                  term_is = h.term_is;
                  beat_is = refl;
                  beat_fresh = early;
                })
          | inr other ↦ rw (other, renew_leadership) (Held-some row h)
        ])

  perform-Held :
      (reply : Reply) (write : Row → Row × Bool) (row : Row)
      → Held leader term since row
      → Held leader term since (write row).0
      → Held leader term since (perform reply write row).0
  perform-Held answered write row before after = after
  perform-Held refused write row before after = before
  perform-Held lost write row before after = after

  takes :
      (config : Config) (tick : Tick) (row : Row)
      → InLease since tick
      → Held leader term since row
      → Held leader term since (try_become_leader config tick row).0
  unfolding try_become_leader
  takes config tick row i h =
      perform-Held tick.write_reply _ row h
        (become_leader-Held config.server_id _ tick.now_ms row i.1 i.2 h)

  renews :
      (config : Config) (tick : Tick) (row : Row)
      → InLease since tick
      → Held leader term since row
      → Held leader term since
          (perform tick.write_reply (renew_leadership config.server_id (as_i64 tick.now_ms)) row).0
  renews config tick row i h =
      perform-Held tick.write_reply _ row h
        (renew_leadership-Held config.server_id tick.now_ms row i.0 i.2 h)

  -- No tick takes the lease, whatever it has read.
  on_state-Held :
      (config : Config) (tick : Tick) (row : Row) (is_leader : Bool)
      (view : Option (Option ClusterState))
      → InLease since tick
      → Held leader term since row
      → Held leader term since (on_state config tick row is_leader view).0
  unfolding on_state
  on_state-Held config tick row is_leader none i h = h
  on_state-Held config tick row is_leader (some none) i h = takes config tick row i h
  on_state-Held config tick row is_leader (some (some state)) i h =
      branches
        (is_none state.leader_id
          || ltb_ℤ (as_i64 config.leader_timeout_ms)
              (sub_i64 (as_i64 tick.now_ms) state.last_heartbeat))
        (is_id config.server_id state.leader_id)
    where
      branches :
          (free mine : Bool)
          → Held leader term since
              (if free
                then keep_flag (try_become_leader config tick row) is_leader
                else if mine
                then perform tick.write_reply
                    (renew_leadership config.server_id (as_i64 tick.now_ms))
                    row
                else (row, false)).0
      branches true mine = takes config tick row i h
      branches false true = renews config tick row i h
      branches false false = h

  heartbeat-Held :
      (config : Config) (tick : Tick) (row : Row) (is_leader : Bool)
      → InLease since tick
      → Held leader term since row
      → Held leader term since (heartbeat config tick row is_leader).0
  unfolding heartbeat
  heartbeat-Held config tick row is_leader i h = elim (Bool-cases tick.heartbeat_sent) [
    | inl sent ↦
        rw (sent, heartbeat) (on_state-Held config tick row is_leader (read tick.state_read) i h)
    | inr unsent ↦ rw (unsent, heartbeat) h
  ]

  tick_server-Held :
      (t : Config × Tick) (c : Servers)
      → InLease since t.1
      → Held leader term since c.row
      → Held leader term since (tick_server t c).row
  unfolding tick_server
  tick_server-Held (config, tick) c i h =
      heartbeat-Held config tick c.row (flag_of (get config.server_id c.flags)) i h

-- While all clocks stand within 15 seconds of the last heartbeat of a leader, no sequence of ticks of
-- any servers takes the leadership from it or changes its term: whatever the ticks have read, even
-- out of date or not at all, and whether or not their writes fail or lose their answers.
pub run-Held :
    (leader : String) (term : ℤ) (since : ℕ) (ts : List (Config × Tick)) (c : Servers)
    → AllInLease since ts
    → Held leader term since c.row
    → Held leader term since (run ts c).row
unfolding run
run-Held leader term since [] c v h = h
run-Held leader term since (t ∷ ts) c v h =
    run-Held leader term since ts (tick_server t c) v.1
      (tick_server-Held leader term since t c v.0 h)
