-- ===== src/System/Start/Health.antt =====
-- When the server starts, and that it is healthy then.
use jrok_rs.Base.{
  ℕ, ◌≡◌, refl, ap, ◌⊎◌, inl, inr, Bool, true, false, ◌&&◌, Option, none, some, String, List, [],
  ◌∷◌, ◌++◌, arith, eq_iff, Option-cases,
}
use jrok_rs.Base.{◌=s◌}
use jrok_rs.Base.Int.{as_i64}
use jrok_rs.Cluster.{ClusterState, Row}
use jrok_rs.Cluster.Upkeep
use jrok_rs.Config.{Config, from_env}
use jrok_rs.Db.Servers
use jrok_rs.Db.Servers.{Server, get_server}
use jrok_rs.Db.Statement.{Fate, answered, refused, lost, update_where, find_where}
use jrok_rs.Error.{Result, ok, err}
use jrok_rs.Exec.{Exec, returns, panics}
use jrok_rs.System.Start.{
  insert_or_ignore, Database, Surroundings, Started, address_of, started, main, main_with, new_db,
  run_migrations, start_cluster,
}

module _ {ℓ} {A : Type ℓ} (p : A → Bool) where
  -- What an UPDATE of the rows that it selects makes of the first of them.
  find_where-update_where :
      (f : A → A) (rows : List A) (row : A)
      → ((a : A) → p a ≡ true → p (f a) ≡ true)
      → find_where p rows ≡ some row
      → find_where p (update_where p f rows) ≡ some (f row)
  unfolding find_where update_where
  find_where-update_where f [] row keeps found = ground arith
  find_where-update_where f (a ∷ rows) row keeps found =
      ground (arith, keeps a, find_where-update_where f rows row keeps)

  -- What an INSERT of a row that none of the others equals makes findable.
  find_where-append :
      (rows : List A) (row : A)
      → p row ≡ true
      → find_where p rows ≡ none
      → find_where p (rows ++ (row ∷ [])) ≡ some row
  unfolding find_where
  find_where-append [] row fits missing = ground arith
  find_where-append (a ∷ rows) row fits missing = ground (arith, find_where-append rows row fits)

-- The row of a server that has just registered.
IsFresh : (id : String) (now_ms : ℕ) → List Server → Type 0
IsFresh id now_ms rows =
    (row : Server) × (get_server answered id rows ≡ ok (some row))
    × (row.is_healthy ≡ true)
    × (row.last_heartbeat ≡ as_i64 now_ms)

register_server-IsFresh :
    (id http_host tcp_host : String) (now_ms : ℕ) (rows : List Server)
    → IsFresh id now_ms (Servers.register_server answered now_ms id http_host tcp_host rows).0
unfolding IsFresh Servers.register_server Servers.write_server get_server
register_server-IsFresh id http_host tcp_host now_ms rows =
    let named : Server → Bool = λ row. row.id =s id in
    let self : (id =s id) ≡ true = ground (arith, eq_iff id id) in
    elim (Option-cases (find_where named rows)) [
      | inl missing ↦ (
        record {
          id = id;
          http_host = http_host;
          tcp_host = tcp_host;
          started_at = as_i64 now_ms;
          last_heartbeat = as_i64 now_ms;
          is_healthy = true;
        },
        rw (missing, Servers.write_server) (ap ok (find_where-append named rows _ self missing)),
        refl,
        refl,
      )
      | inr (row, found) ↦ (
        record row { last_heartbeat = as_i64 now_ms; is_healthy = true },
        rw (found, Servers.write_server)
            (ap ok (find_where-update_where named _ rows row (λ a own. own) found)),
        refl,
        refl,
      )
    ]

is_ok : Result (Unit {0}) → Bool
is_ok (err e) = false
is_ok (ok u) = true

is_answered : Fate → Bool
is_answered answered = true
is_answered (refused e) = false
is_answered (lost e) = false

is_none : Option String → Bool
is_none none = true
is_none (some e) = false

-- Nothing that the start waits for fails.
unfoldable pub all_well : Surroundings → Config → Bool
unfolding is_ok is_answered is_none
all_well s config =
    is_ok s.connection
    && is_answered s.migration
    && is_answered s.registration
    && is_none (s.bind_error (address_of config))

-- How a start ends: with a panic, or with a server that is healthy.
abbrev pub StartsWell : (well : Bool) → Surroundings → Config → Database × Exec Started → Type 0
StartsWell well s config (after, result) =
    ((well ≡ false) × (result ≡ panics))
    ⊎ ((well ≡ true)
        × (result ≡ returns (started config))
        × ((row : Server) × (get_server answered config.server_id after.tables.servers
              ≡ ok (some row))
            × (row.is_healthy ≡ true)
            × (row.last_heartbeat ≡ as_i64 s.now_ms))
        × ((state : ClusterState) × (after.state ≡ some state)))

has_state : (row : Row) → (state : ClusterState) × (insert_or_ignore row ≡ some state)
has_state none = (_, refl)
has_state (some state) = (state, refl)

start-StartsWell :
    (s : Surroundings) (config : Config) (connection : Result (Unit {0}))
    (migration registration : Fate) (db : Database)
    → let s' = record s {
      connection = connection;
      migration = migration;
      registration = registration;
    } in
      StartsWell (all_well s' config) s' config (main_with s' (returns config) db)
unfolding all_well is_ok is_answered is_none new_db run_migrations start_cluster
    Upkeep.register_server IsFresh Servers.register_server
start-StartsWell s config (err e) migration registration db = inl (refl, refl)
start-StartsWell s config (ok u) (refused e) registration db = inl (refl, refl)
start-StartsWell s config (ok u) (lost e) registration db = inl (refl, refl)
start-StartsWell s config (ok u) answered (refused e) db = inl (refl, refl)
start-StartsWell s config (ok u) answered (lost e) db = inl (refl, refl)
start-StartsWell s config (ok u) answered answered db =
    let fresh =
      register_server-IsFresh config.server_id config.http_host config.tcp_host s.now_ms
        db.tables.servers in
    elim (Option-cases (s.bind_error (address_of config))) [
      | inl free ↦ rw free (inr (refl, refl, fresh, has_state db.state))
      | inr (e, taken) ↦ rw taken (inl (refl, refl))
    ]

-- With complete settings the server starts exactly if the database can be reached, its migrations
-- and the registration are answered, and the address can be bound; otherwise it panics. When it has
-- started, no agent is registered and no session stored, the server is not the leader, its row says
-- that it is healthy, as of now, even if it was marked before, and the row of the cluster exists.
pub main_lem :
    (s : Surroundings) (config : Config) (db : Database)
    → from_env s.env s.random_id ≡ returns config
    → StartsWell (all_well s config) s config (main s db)
unfolding main
main_lem s config db settings =
    rw settings (start-StartsWell s config s.connection s.migration s.registration db)
