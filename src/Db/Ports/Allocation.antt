-- ===== src/Db/Ports/Allocation.antt =====
-- The port that an allocation finds.
use jrok_rs.Base.{
  ◌⊎◌, inl, inr, ℕ, zero, suc, ◌+◌, ◌-◌, ◌≤◌, ◌<◌, ◌≡◌, ◌≢◌, ap, refl, sym, ◌∙◌, Option, none, some,
  String, List, arith,
}
use jrok_rs.Db.Ports.{TcpPort, holder, insert_port, try_ports, allocate_tcp_port}
use jrok_rs.Db.Statement.{Fate, answered, Driver, execute}
use jrok_rs.Error.{Error, Result, ok, err}
use jrok_rs.Error.Cases.{Result-cases, ok_ne_err}
use jrok_rs.Db.Ports.Insertion.{insert_port_ne, insert_port_held, insert_port_ok, insert_port_free}

-- The row in a result, and a given one if there is none.
returned_row : TcpPort → Result (Option TcpPort) → TcpPort
returned_row default (ok (some row)) = row
returned_row default _ = default

module _ (driver : Driver) (fates : ℕ → Fate) (tunnel_id server_id : String) where
  new_row : ℕ → TcpPort
  new_row port = record { port = port; tunnel_id = tunnel_id; server_id = server_id }

  inserted : ℕ → List TcpPort → List TcpPort × Result (Unit {0})
  inserted port rows = execute (fates port) (insert_port driver (new_row port)) rows

  try_ports_empty :
      (port : ℕ) (rows : List TcpPort)
      → try_ports driver fates tunnel_id server_id zero port rows ≡ (rows, ok none)
  unfolding try_ports
  try_ports_empty port rows = refl

  -- One round of the loop.
  try_ports_done :
      (left port : ℕ) (rows : List TcpPort) (u : Unit {0})
      → (inserted port rows).1 ≡ ok u
      → try_ports driver fates tunnel_id server_id (suc left) port rows
        ≡ ((inserted port rows).0, ok (some (new_row port)))
  unfolding try_ports inserted new_row
  try_ports_done left port rows u done = rw (done, try_ports) refl

  try_ports_next :
      (left port : ℕ) (rows : List TcpPort) (e : Error)
      → (inserted port rows).1 ≡ err e
      → try_ports driver fates tunnel_id server_id (suc left) port rows
        ≡ try_ports driver fates tunnel_id server_id left (suc port) (inserted port rows).0
  unfolding try_ports inserted new_row
  try_ports_next left port rows e failed = rw (failed, try_ports) refl

  -- A port that is held keeps its holder, and the ports below the range are not touched.
  try_ports_held :
      (left port : ℕ) (rows : List TcpPort) (q : ℕ) (row : TcpPort)
      → holder q rows ≡ some row
      → holder q (try_ports driver fates tunnel_id server_id left port rows).0 ≡ some row
  unfolding try_ports inserted new_row
  try_ports_held zero port rows q row held = held
  try_ports_held (suc left) port rows q row held =
      let kept = insert_port_held driver (fates port) (new_row port) rows q row held in
      elim (Result-cases (inserted port rows).1) [
        | inr (u, done) ↦ rw (try_ports_done left port rows u done) kept
        | inl (e, failed) ↦
            rw (try_ports_next left port rows e failed)
              (try_ports_held left (suc port) (inserted port rows).0 q row kept)
      ]

  try_ports_outside :
      (left port : ℕ) (rows : List TcpPort) (q : ℕ)
      → (q < port) ⊎ (port + left ≤ q)
      → holder q (try_ports driver fates tunnel_id server_id left port rows).0 ≡ holder q rows
  unfolding try_ports inserted new_row
  try_ports_outside zero port rows q out = refl
  try_ports_outside (suc left) port rows q out =
      let same =
        insert_port_ne driver (fates port) (new_row port) rows q
          λ eq. elim out [ inl below ↦ omega arith | inr above ↦ omega arith ] in
      elim (Result-cases (inserted port rows).1) [
        | inr (u, done) ↦ rw (try_ports_done left port rows u done) same
        | inl (e, failed) ↦
            rw (try_ports_next left port rows e failed)
              (try_ports_outside left (suc port) (inserted port rows).0 q (ground arith) ∙ same)
      ]

  -- What it means that a run over [port, port + left) has given out a row: the row is the caller's
  -- own, its port lies in the range and was free, and is held by the row now.
  GivenOut : (left port : ℕ) (rows after : List TcpPort) → TcpPort → Type 0
  GivenOut left port rows after row =
      (row ≡ new_row row.port)
      × (port ≤ row.port)
      × (row.port < port + left)
      × (holder row.port rows ≡ none)
      × (holder row.port after ≡ some row)

  try_ports_given :
      (left port : ℕ) (rows : List TcpPort) (row : TcpPort)
      → (try_ports driver fates tunnel_id server_id left port rows).1 ≡ ok (some row)
      → GivenOut left port rows (try_ports driver fates tunnel_id server_id left port rows).0 row
  unfolding GivenOut inserted new_row returned_row
  try_ports_given zero port rows row given = ground (arith, try_ports_empty port rows)
  try_ports_given (suc left) port rows row given = elim (Result-cases (inserted port rows).1) [
    | inr (u, done) ↦
        let same : new_row port ≡ row =
          ap (returned_row row)
            (sym (ap (λ r. r.1) (try_ports_done left port rows u done)) ∙ given) in
        let (free, held) = insert_port_ok driver (fates port) (new_row port) rows u done in
        rw (try_ports_done left port rows u done, sym same)
          (refl, omega arith, omega arith, free, held)
    | inl (e, failed) ↦
        let eq = try_ports_next left port rows e failed in
        let (own, low, high, free, held) =
          try_ports_given left (suc port) (inserted port rows).0 row
            (sym (ap (λ r. r.1) eq) ∙ given) in
        let same =
          insert_port_ne driver (fates port) (new_row port) rows row.port λ same. omega arith in
        rw eq (own, omega arith, omega arith, sym same ∙ free, held)
  ]

  -- A run gives out a row if one of its ports is free and the statement for that port is answered.
  try_ports-some :
      (left port : ℕ) (rows : List TcpPort) (q : ℕ)
      → port ≤ q
      → q < port + left
      → holder q rows ≡ none
      → fates q ≡ answered
      → (row : TcpPort) × ((try_ports driver fates tunnel_id server_id left port rows).1
          ≡ ok (some row))
        × (row.port ≤ q)
  unfolding inserted new_row
  try_ports-some zero port rows q low high free fine = absurd (omega arith)
  try_ports-some (suc left) port rows q low high free fine =
      elim (Result-cases (inserted port rows).1) [
        | inr (u, done) ↦ (new_row port, ap (λ r. r.1) (try_ports_done left port rows u done), low)
        | inl (e, failed) ↦
            let later : port ≢ q = λ same. ok_ne_err (
              sym (
                insert_port_free driver (fates port) (new_row port) rows (ap fates same ∙ fine)
                  (ap (λ p. holder p rows) same ∙ free))
              ∙ failed) in
            rw (try_ports_next left port rows e failed) (
              try_ports-some left (suc port) (inserted port rows).0 q (omega arith) (omega arith)
                (insert_port_ne driver (fates port) (new_row port) rows q later ∙ free) fine)
      ]

module _ (driver : Driver) (fates : ℕ → Fate) (tunnel_id server_id : String)
    (start_port end_port : ℕ) (rows : List TcpPort) where
  -- However its statements end, an allocation takes no port from its holder and does not touch a
  -- port outside [start_port, end_port). A row that it returns is for the caller's tunnel and
  -- server, has a port in [start_port, end_port) that was free, and is in the table afterwards.
  pub allocate_tcp_port_safe :
      let (after, result) =
        allocate_tcp_port driver fates tunnel_id server_id start_port end_port rows in
      ((q : ℕ) (row : TcpPort) → holder q rows ≡ some row → holder q after ≡ some row)
      × ((q : ℕ) → (q < start_port) ⊎ (end_port ≤ q) → holder q after ≡ holder q rows)
      × ((row : TcpPort)
          → result ≡ ok (some row)
          → (row.tunnel_id ≡ tunnel_id)
            × (row.server_id ≡ server_id)
            × (start_port ≤ row.port)
            × (row.port < end_port)
            × (holder row.port rows ≡ none)
            × (holder row.port after ≡ some row))
  unfolding allocate_tcp_port GivenOut new_row
  allocate_tcp_port_safe = (
    λ q row held.
        try_ports_held driver fates tunnel_id server_id (end_port - start_port) start_port rows q
          row held,
    λ q out.
        try_ports_outside driver fates tunnel_id server_id (end_port - start_port) start_port rows q
          (ground arith),
    λ row given.
        let (own, low, high, free, held) =
          try_ports_given driver fates tunnel_id server_id (end_port - start_port) start_port rows
            row given in
        (ap (λ r. r.tunnel_id) own, ap (λ r. r.server_id) own, low, omega arith, free, held),
  )

  -- If some port of the range is free and the statement for it is answered, an allocation returns a
  -- row, and for no port above that one.
  pub allocate_tcp_port-some :
      (q : ℕ)
      → start_port ≤ q
      → q < end_port
      → holder q rows ≡ none
      → fates q ≡ answered
      → (row : TcpPort) × ((allocate_tcp_port driver fates tunnel_id server_id start_port end_port
            rows).1
          ≡ ok (some row))
        × (row.port ≤ q)
  unfolding allocate_tcp_port
  allocate_tcp_port-some q low high free fine =
      try_ports-some driver fates tunnel_id server_id (end_port - start_port) start_port rows q low
        (omega arith) free fine
