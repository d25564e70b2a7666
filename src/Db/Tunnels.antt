-- ===== src/Db/Tunnels.antt =====
-- src/db/mod.rs and src/db/models.rs: the table tunnels.
pub mod RoundTrip
use jrok_rs.Base.{ℕ, ◌%◌, Bool, true, Option, none, some, String, List, [], ◌∷◌, ◌++◌}
use jrok_rs.Base.{◌=s◌}
use jrok_rs.Base.Int.{ℤ, as_i64}
use jrok_rs.Db.{Protocol, protocol_of, show_protocol}
use jrok_rs.Db.Statement.{Fate, Driver, execute, query, update_where, find_where}
use jrok_rs.Error.{Result, ok, err, database}

pub record TunnelRow : Type 0 where
  pub id : String
  pub subdomain : String
  pub protocol : String
  pub tcp_port : Option ℕ
  pub api_key_id : Option String
  pub created_at : ℤ
  pub updated_at : ℤ
  pub active : Bool

pub record Tunnel : Type 0 where
  pub id : String
  pub subdomain : String
  pub protocol : Protocol
  pub tcp_port : Option ℕ
  pub api_key_id : Option String
  pub created_at : ℤ
  pub updated_at : ℤ
  pub active : Bool

-- DO UPDATE: a tunnel that is known keeps its id, its key and its creation time.
unfoldable pub overwrite : (now_ms : ℕ) → Tunnel → TunnelRow → TunnelRow
unfolding as_i64 show_protocol
overwrite now_ms tunnel row = record row {
  protocol = show_protocol tunnel.protocol;
  tcp_port = tunnel.tcp_port;
  updated_at = as_i64 now_ms;
  active = true;
}

unfoldable pub new_row : (now_ms : ℕ) → Tunnel → TunnelRow
unfolding as_i64 show_protocol
new_row now_ms tunnel = record {
  id = tunnel.id;
  subdomain = tunnel.subdomain;
  protocol = show_protocol tunnel.protocol;
  tcp_port = tunnel.tcp_port;
  api_key_id = tunnel.api_key_id;
  created_at = as_i64 now_ms;
  updated_at = as_i64 now_ms;
  active = true;
}

-- INSERT … ON CONFLICT(subdomain) DO UPDATE …: the column subdomain is UNIQUE, the column id the
-- primary key.
unfoldable pub write_tunnel :
    Driver → (now_ms : ℕ) → Tunnel → List TunnelRow → List TunnelRow × Result (Unit {0})
unfolding find_where update_where overwrite new_row
write_tunnel driver now_ms tunnel rows =
    elim (find_where (λ row. row.subdomain =s tunnel.subdomain) rows) [
      | some _ ↦ (
        update_where (λ row. row.subdomain =s tunnel.subdomain) (overwrite now_ms tunnel) rows,
        ok tt,
      )
      | none ↦ elim (find_where (λ row. row.id =s tunnel.id) rows) [
        | some _ ↦ (rows, err (database driver.broken_constraint))
        | none ↦ (rows ++ new_row now_ms tunnel ∷ [], ok tt)
      ]
    ]

-- `Db::create_tunnel`
unfoldable pub create_tunnel :
    Driver → Fate → (now_ms : ℕ) → Tunnel → List TunnelRow → List TunnelRow × Result (Unit {0})
unfolding write_tunnel
create_tunnel driver fate now_ms tunnel = execute fate (write_tunnel driver now_ms tunnel)

-- `p as u16` of a column that may be NULL.
abbrev pub port_of : Option ℕ → Option ℕ
port_of none = none
port_of (some p) = some (p % 65536)

-- The columns of a row, in the order in which they are read.
unfoldable pub read_row : TunnelRow → Tunnel
unfolding protocol_of
read_row row = record {
  id = row.id;
  subdomain = row.subdomain;
  protocol = protocol_of row.protocol;
  tcp_port = port_of row.tcp_port;
  api_key_id = row.api_key_id;
  created_at = row.created_at;
  updated_at = row.updated_at;
  active = row.active;
}

unfoldable pub read_tunnel : Option TunnelRow → Option Tunnel
unfolding read_row
read_tunnel none = none
read_tunnel (some row) = some (read_row row)

-- `Db::get_tunnel_by_subdomain`
unfoldable pub get_tunnel_by_subdomain : Fate → String → List TunnelRow → Result (Option Tunnel)
unfolding find_where read_tunnel
get_tunnel_by_subdomain fate subdomain =
    query fate λ rows. ok (read_tunnel (find_where (λ row. row.subdomain =s subdomain) rows))
