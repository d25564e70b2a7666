-- ===== src/Db/Ports/Insertion.antt =====
-- The insertion of a row for a port, however its statement ends.
use jrok_rs.Base.{inl, inr, ℕ, ◌≡◌, ◌≢◌, refl, none, some, List, arith, Option-cases, ==_iff}
use jrok_rs.Db.Ports.{TcpPort, holder, insert_port}
use jrok_rs.Db.Statement.{Fate, answered, refused, lost, Driver, execute, find_where}
use jrok_rs.Error.{ok}

-- An insertion leaves every other port to its holder, or to nobody.
pub insert_port_ne :
    (driver : Driver) (fate : Fate) (new : TcpPort) (rows : List TcpPort) (q : ℕ)
    → new.port ≢ q
    → holder q (execute fate (insert_port driver new) rows).0 ≡ holder q rows
unfolding insert_port holder find_where
insert_port_ne driver (refused e) new rows q ne = refl
insert_port_ne driver answered new rows q ne = ground (arith, ==_iff new.port q)
insert_port_ne driver (lost e) new rows q ne = ground (arith, ==_iff new.port q)

-- A port that is held keeps its holder.
pub insert_port_held :
    (driver : Driver) (fate : Fate) (new : TcpPort) (rows : List TcpPort) (q : ℕ) (row : TcpPort)
    → holder q rows ≡ some row
    → holder q (execute fate (insert_port driver new) rows).0 ≡ some row
unfolding insert_port holder find_where
insert_port_held driver answered new rows q row held = elim (Option-cases (holder new.port rows)) [
  | inl free ↦ ground (arith, ==_iff new.port q)
  | inr (r, taken) ↦ ground arith
]
insert_port_held driver (refused e) new rows q row held = held
insert_port_held driver (lost e) new rows q row held = elim (Option-cases (holder new.port rows)) [
  | inl free ↦ ground (arith, ==_iff new.port q)
  | inr (r, taken) ↦ ground arith
]

-- An insertion that returns has found the port free, and leaves it to the new row.
pub insert_port_ok :
    (driver : Driver) (fate : Fate) (new : TcpPort) (rows : List TcpPort) (u : Unit {0})
    → (execute fate (insert_port driver new) rows).1 ≡ ok u
    → (holder new.port rows ≡ none)
      × (holder new.port (execute fate (insert_port driver new) rows).0 ≡ some new)
unfolding insert_port holder find_where
insert_port_ok driver answered new rows u done = elim (Option-cases (holder new.port rows)) [
  | inl free ↦ ground (arith, ==_iff new.port new.port)
  | inr (r, taken) ↦ ground arith
]
insert_port_ok driver (refused e) new rows u done = ground arith
insert_port_ok driver (lost e) new rows u done = ground arith

pub insert_port_free :
    (driver : Driver) (fate : Fate) (new : TcpPort) (rows : List TcpPort)
    → fate ≡ answered
    → holder new.port rows ≡ none
    → (execute fate (insert_port driver new) rows).1 ≡ ok tt
unfolding insert_port holder find_where
insert_port_free driver answered new rows h free = ground arith
insert_port_free driver (refused e) new rows h free = ground arith
insert_port_free driver (lost e) new rows h free = ground arith
