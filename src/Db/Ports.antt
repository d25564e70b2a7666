-- ===== src/Db/Ports.antt =====
-- src/db/mod.rs and src/db/models.rs: the table tcp_ports, in which each port is held at most once.
pub mod Insertion
pub mod Allocation
use jrok_rs.Base.{ℕ, zero, suc, ◌-◌, Option, none, some, String, List, ◌∷◌, ◌==◌}
use jrok_rs.Db.Statement.{Fate, Driver, execute, delete_where, find_where}
use jrok_rs.Error.{Result, ok, err, database}

-- A row, and the struct that is returned for it.
pub record TcpPort : Type 0 where
  pub port : ℕ
  pub tunnel_id : String
  pub server_id : String

-- The row of a port, if it is held.
unfoldable pub holder : ℕ → List TcpPort → Option TcpPort
unfolding find_where
holder port rows = find_where (λ row. row.port == port) rows

-- INSERT INTO tcp_ports: the port is the primary key.
unfoldable pub insert_port : Driver → TcpPort → List TcpPort → List TcpPort × Result (Unit {0})
unfolding holder
insert_port driver new rows = elim (holder new.port rows) [
  | some _ ↦ (rows, err (database driver.broken_constraint))
  | none ↦ (new ∷ rows, ok tt)
]

-- The loop of `allocate_tcp_port`, over `left` ports from `port` on. Any error counts as a port that
-- is taken. The end of each statement is a function of its port.
unfoldable pub try_ports :
    Driver
    → (ℕ → Fate)
    → (tunnel_id server_id : String) (left port : ℕ) → List TcpPort
    → List TcpPort × Result (Option TcpPort)
unfolding insert_port
try_ports driver fates tunnel_id server_id zero port rows = (rows, ok none)
try_ports driver fates tunnel_id server_id (suc left) port rows =
    let new : TcpPort = record { port = port; tunnel_id = tunnel_id; server_id = server_id } in
    let inserted = execute (fates port) (insert_port driver new) rows in
    elim inserted.1 [
      | ok _ ↦ (inserted.0, ok (some new))
      | err _ ↦ try_ports driver fates tunnel_id server_id left (suc port) inserted.0
    ]

-- `Db::allocate_tcp_port`: the range is empty if it ends before it starts.
unfoldable pub allocate_tcp_port :
    Driver
    → (ℕ → Fate)
    → (tunnel_id server_id : String) (start_port end_port : ℕ) → List TcpPort
    → List TcpPort × Result (Option TcpPort)
unfolding try_ports
allocate_tcp_port driver fates tunnel_id server_id start_port end_port rows =
    try_ports driver fates tunnel_id server_id (end_port - start_port) start_port rows

-- `Db::deallocate_tcp_port`
unfoldable pub deallocate_tcp_port : Fate → ℕ → List TcpPort → List TcpPort × Result (Unit {0})
unfolding delete_where
deallocate_tcp_port fate port =
    execute fate λ rows. (delete_where (λ row. row.port == port) rows, ok tt)
