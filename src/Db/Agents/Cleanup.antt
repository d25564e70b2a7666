-- ===== src/Db/Agents/Cleanup.antt =====
-- What the cleanup of one server's stale agents leaves in the table, and what it reports.
use jrok_rs.Base.{
  ℕ, ◌+◌, get_elem?, ◌≡◌, refl, Bool, false, not, some, String, List, [], ◌∷◌, arith,
}
use jrok_rs.Base.Int.{ℤ, as_i64, sub_i64}
use jrok_rs.Db.Agents.{AgentRow, is_old, count_where, cleanup_stale_agents}
use jrok_rs.Db.Statement.Rows.{AllRows, update_where-AllRows, update_where_else}
use jrok_rs.Db.Statement.{answered, update_where}
use jrok_rs.Error.{ok}

abbrev pub is_active : AgentRow → Bool
is_active row = row.active

count_where-update_where :
    (cutoff : ℤ) (server_id : String) (rows : List AgentRow)
    → count_where is_active
          (update_where (is_old cutoff server_id) (λ row. record row { active = false }) rows)
        + count_where (is_old cutoff server_id) rows
      ≡ count_where is_active rows
unfolding count_where update_where
count_where-update_where cutoff server_id [] = refl
count_where-update_where cutoff server_id (row ∷ rows) =
    ground (arith, count_where-update_where cutoff server_id rows)

-- A cleanup that is answered returns the number by which the active agents have become fewer.
-- Afterwards every active agent of the server has a heartbeat that is not before the cutoff, and the
-- rows of other servers, of newer heartbeats and of agents that were not active are as before.
pub cleanup_stale_agents-AllRows :
    (now_ms timeout_ms : ℕ) (server_id : String) (rows : List AgentRow)
    → let cutoff = sub_i64 (as_i64 now_ms) (as_i64 timeout_ms) in
      let (after, result) = cleanup_stale_agents answered now_ms timeout_ms server_id rows in
      ((n : ℕ) × (result ≡ ok n) × (count_where is_active after + n ≡ count_where is_active rows))
      × AllRows (λ row. not (is_old cutoff server_id row)) after
      × ((i : ℕ) (row : AgentRow)
          → get_elem? rows i ≡ some row
          → is_old cutoff server_id row ≡ false
          → get_elem? after i ≡ some row)
unfolding cleanup_stale_agents
cleanup_stale_agents-AllRows now_ms timeout_ms server_id rows = (
  (
    count_where (is_old cutoff server_id) rows,
    refl,
    count_where-update_where cutoff server_id rows,
  ),
  update_where-AllRows (is_old cutoff server_id) (λ row. not (is_old cutoff server_id row)) drop
      rows (λ row old. ground arith) (λ row new. ground arith),
  update_where_else (is_old cutoff server_id) drop rows,
)
  where
    cutoff : ℤ
    cutoff = sub_i64 (as_i64 now_ms) (as_i64 timeout_ms)

    drop : AgentRow → AgentRow
    drop row = record row { active = false }
