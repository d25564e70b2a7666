-- ===== src/Cluster.antt =====
-- src/cluster/mod.rs: a tick of the heartbeat loop, and the statements of src/db/mod.rs on the row of
-- the table cluster_state that it makes. What a tick reads is an argument, since other servers may
-- write between its statements; its one write falls on the row as it then is.
pub mod Lease
pub mod Flag
pub mod Upkeep
use jrok_rs.Base.{
  ℕ, Bool, true, false, not, ◌||◌, Option, none, some, String, List, [], ◌∷◌, if◌then◌else◌,
}
use jrok_rs.Base.{◌=s◌}
use jrok_rs.Base.Int.{ℤ, pos, as_i64, sub_i64, add_i64, ltb_ℤ}
use jrok_rs.Base.Map.{StrMap, get, insert}

pub record ClusterState : Type 0 where
  pub leader_id : Option String
  pub leader_term : ℤ
  pub last_heartbeat : ℤ

-- The row with the id 1, if the table has it.
abbrev pub Row : Type 0
Row = Option ClusterState

-- An empty text counts as no leader.
abbrev pub leader_of : Option String → Option String
leader_of none = none
leader_of (some s) = if s =s "" then none else some s

-- `Db::get_cluster_state`
unfoldable pub get_cluster_state : Row → Option ClusterState
get_cluster_state none = none
get_cluster_state (some state) = some (record state { leader_id = leader_of state.leader_id })

abbrev pub is_none {ℓ} : {A : Type ℓ} → Option A → Bool
is_none none = true
is_none (some a) = false

abbrev pub is_id : String → Option String → Bool
is_id server_id none = false
is_id server_id (some s) = s =s server_id

-- `Db::become_leader`: the row, and whether the UPDATE has changed it. The 15 seconds stand in the
-- statement.
unfoldable pub become_leader : String → (term now : ℤ) → Row → Row × Bool
unfolding sub_i64
become_leader server_id term now none = (none, false)
become_leader server_id term now (some state) =
    if is_none state.leader_id || ltb_ℤ state.last_heartbeat (sub_i64 now (pos 15000))
    then (
      some (record { leader_id = some server_id; leader_term = term; last_heartbeat = now }),
      true,
    )
    else (some state, false)

-- `Db::renew_leadership`
unfoldable pub renew_leadership : String → (now : ℤ) → Row → Row × Bool
renew_leadership server_id now none = (none, false)
renew_leadership server_id now (some state) =
    if is_id server_id state.leader_id
    then (some (record state { last_heartbeat = now }), true)
    else (some state, false)

-- How a write ends: its answer arrives, it fails before it has an effect, or it has its effect and
-- the answer is lost.
pub data Reply : Type 0 where
  answered refused lost : Reply

-- The row after a write, and whether its result is `Ok(true)`.
abbrev pub perform : Reply → (Row → Row × Bool) → Row → Row × Bool
perform answered write row = write row
perform refused write row = (row, false)
perform lost write row = ((write row).0, false)

-- The settings that the heartbeat loop reads.
pub record Config : Type 0 where
  pub server_id : String
  pub leader_timeout_ms : ℕ

-- What a tick meets: whether its own heartbeat could be sent, the clock, the row as each of its two
-- reads finds it (none if the read fails), and how its write ends.
pub record Tick : Type 0 where
  pub heartbeat_sent : Bool
  pub now_ms : ℕ
  pub state_read : Option Row
  pub term_read : Option Row
  pub write_reply : Reply

unfoldable pub new_term : Option Row → ℤ
unfolding add_i64
new_term (some (some state)) = add_i64 state.leader_term (pos 1)
new_term _ = pos 1

-- `Cluster::try_become_leader`
unfoldable pub try_become_leader : Config → Tick → Row → Row × Bool
unfolding become_leader new_term as_i64
try_become_leader config tick row =
    perform tick.write_reply
      (become_leader config.server_id (new_term tick.term_read) (as_i64 tick.now_ms)) row

-- A server that becomes the leader stores true; one that does not leaves its flag as it is.
abbrev pub keep_flag : Row × Bool → Bool → Row × Bool
keep_flag (row, won) is_leader = (row, won || is_leader)

-- `Cluster::renew_leadership`
abbrev pub renew : Config → Tick → Row → Row × Bool
renew config tick row =
    perform tick.write_reply (renew_leadership config.server_id (as_i64 tick.now_ms)) row

-- The `match db.get_cluster_state()`: the row and the flag `is_leader` after it.
unfoldable pub on_state :
    Config → Tick → Row → (is_leader : Bool) → Option (Option ClusterState) → Row × Bool
unfolding try_become_leader renew_leadership as_i64 sub_i64
on_state config tick row is_leader none = (row, is_leader)
on_state config tick row is_leader (some none) =
    keep_flag (try_become_leader config tick row) is_leader
on_state config tick row is_leader (some (some state)) =
    let leader_expired =
      ltb_ℤ (as_i64 config.leader_timeout_ms) (sub_i64 (as_i64 tick.now_ms) state.last_heartbeat) in
    if is_none state.leader_id || leader_expired
    then keep_flag (try_become_leader config tick row) is_leader
    else if is_id config.server_id state.leader_id
    then renew config tick row
    else (row, false)

-- What a read returns.
abbrev pub read : Option Row → Option (Option ClusterState)
read none = none
read (some row) = some (get_cluster_state row)

-- One round of the loop in `Cluster::heartbeat_loop`.
unfoldable pub heartbeat : Config → Tick → Row → (is_leader : Bool) → Row × Bool
unfolding on_state get_cluster_state
heartbeat config tick row is_leader =
    if not tick.heartbeat_sent
    then (row, is_leader)
    else on_state config tick row is_leader (read tick.state_read)

-- The shared row, and the flag of each server that has ticked.
pub record Servers : Type 0 where
  pub row : Row
  pub flags : StrMap Bool

abbrev pub flag_of : Option Bool → Bool
flag_of none = false
flag_of (some b) = b

-- A tick of one server.
unfoldable pub tick_server : Config × Tick → Servers → Servers
unfolding heartbeat get insert
tick_server (config, tick) c =
    let (row, is_leader) = heartbeat config tick c.row (flag_of (get config.server_id c.flags)) in
    record { row = row; flags = insert config.server_id is_leader c.flags }

unfoldable pub run : List (Config × Tick) → Servers → Servers
unfolding tick_server
run [] c = c
run (t ∷ ts) c = run ts (tick_server t c)
