-- ===== src/Db/Tunnels/RoundTrip.antt =====
-- A tunnel that is created is found under its subdomain.
use jrok_rs.Base.{
  ℕ, ◌≡◌, ◌≢◌, ◌<◌, refl, ap, ◌∙◌, inl, inr, Bool, true, Option, none, some, String, List, [], ◌∷◌,
  ◌++◌, arith, eq_iff, Option-cases,
}
use jrok_rs.Base.{◌=s◌}
use jrok_rs.Db.{Protocol, http, tcp, protocol_of, show_protocol}
use jrok_rs.Db.Tunnels.{
  port_of, read_row, read_tunnel, overwrite, new_row, write_tunnel, TunnelRow, Tunnel,
  create_tunnel, get_tunnel_by_subdomain,
}
use jrok_rs.Db.Statement.{answered, Driver, update_where, find_where}
use jrok_rs.Error.{ok}

protocol_of-show_protocol : (p : Protocol) → protocol_of (show_protocol p) ≡ p
unfolding protocol_of show_protocol
protocol_of-show_protocol http = refl
protocol_of-show_protocol tcp = refl

abbrev has_subdomain : String → TunnelRow → Bool
has_subdomain s row = row.subdomain =s s

abbrev mapped : (TunnelRow → TunnelRow) → Option TunnelRow → Option TunnelRow
mapped f none = none
mapped f (some row) = some (f row)

module _ (s : String) (f : TunnelRow → TunnelRow)
    (same : (row : TunnelRow) → (f row).subdomain ≡ row.subdomain) where
  find_where-update_where :
      (rows : List TunnelRow)
      → find_where (has_subdomain s) (update_where (has_subdomain s) f rows)
        ≡ mapped f (find_where (has_subdomain s) rows)
  unfolding find_where update_where
  find_where-update_where [] = refl
  find_where-update_where (row ∷ rows) = ground (
    arith,
    same row,
    eq_iff row.subdomain s,
    eq_iff (f row).subdomain s,
    find_where-update_where rows,
  )

  find_where-update_where_ne :
      (other : String) (rows : List TunnelRow)
      → s ≢ other
      → find_where (has_subdomain other) (update_where (has_subdomain s) f rows)
        ≡ find_where (has_subdomain other) rows
  unfolding find_where update_where
  find_where-update_where_ne other [] ne = refl
  find_where-update_where_ne other (row ∷ rows) ne = ground (
    arith,
    same row,
    eq_iff row.subdomain s,
    eq_iff row.subdomain other,
    eq_iff (f row).subdomain other,
    find_where-update_where_ne other rows ne,
  )

find_where-append :
    (s : String) (new : TunnelRow) (rows : List TunnelRow)
    → find_where (has_subdomain s) rows ≡ none
    → find_where (has_subdomain s) (rows ++ new ∷ []) ≡ find_where (has_subdomain s) (new ∷ [])
unfolding find_where
find_where-append s new [] missing = refl
find_where-append s new (row ∷ rows) missing = ground (arith, find_where-append s new rows)

find_where-append_ne :
    (s : String) (new : TunnelRow) (rows : List TunnelRow)
    → new.subdomain ≢ s
    → find_where (has_subdomain s) (rows ++ new ∷ []) ≡ find_where (has_subdomain s) rows
unfolding find_where
find_where-append_ne s new [] ne = ground (arith, eq_iff new.subdomain s)
find_where-append_ne s new (row ∷ rows) ne = ground (arith, find_where-append_ne s new rows ne)

find_where-subdomain :
    (s : String) (rows : List TunnelRow) (row : TunnelRow)
    → find_where (has_subdomain s) rows ≡ some row
    → row.subdomain ≡ s
unfolding find_where
find_where-subdomain s [] row found = ground arith
find_where-subdomain s (x ∷ xs) row found =
    ground (arith, eq_iff x.subdomain s, find_where-subdomain s xs row)

-- A port fits in 16 bits.
abbrev pub IsPort : Option ℕ → Type 0
IsPort none = Unit
IsPort (some p) = p < 65536

-- A row holds what a tunnel asks for, and is active.
abbrev pub Holds : Tunnel → TunnelRow → Type 0
Holds tunnel row =
    (row.subdomain ≡ tunnel.subdomain)
    × (row.protocol ≡ show_protocol tunnel.protocol)
    × (row.tcp_port ≡ tunnel.tcp_port)
    × (row.active ≡ true)

-- The tunnel that a lookup returns has what was asked for, and is active.
abbrev pub Serves : Tunnel → Tunnel → Type 0
Serves tunnel t =
    (t.subdomain ≡ tunnel.subdomain)
    × (t.protocol ≡ tunnel.protocol)
    × (t.tcp_port ≡ tunnel.tcp_port)
    × (t.active ≡ true)

port_of-IsPort : (port : Option ℕ) → IsPort port → port_of port ≡ port
port_of-IsPort none h = refl
port_of-IsPort (some p) h = ground arith

module _ (tunnel : Tunnel) (port : IsPort tunnel.tcp_port) where
  read_row-Serves : (row : TunnelRow) → Holds tunnel row → Serves tunnel (read_row row)
  unfolding read_row
  read_row-Serves row (sub, prot, tcp_port, active) = (
    sub,
    ap protocol_of prot ∙ protocol_of-show_protocol tunnel.protocol,
    ap port_of tcp_port ∙ port_of-IsPort tunnel.tcp_port port,
    active,
  )

  get_tunnel_found :
      (rows : List TunnelRow) (row : TunnelRow)
      → find_where (has_subdomain tunnel.subdomain) rows ≡ some row
      → get_tunnel_by_subdomain answered tunnel.subdomain rows ≡ ok (some (read_row row))
  unfolding get_tunnel_by_subdomain read_tunnel
  get_tunnel_found rows row found = rw (found, read_tunnel) refl

  module _ (driver : Driver) (now_ms : ℕ) (rows : List TunnelRow) where
    write_known :
        (row : TunnelRow)
        → find_where (has_subdomain tunnel.subdomain) rows ≡ some row
        → write_tunnel driver now_ms tunnel rows
          ≡ (update_where (has_subdomain tunnel.subdomain) (overwrite now_ms tunnel) rows, ok tt)
    unfolding write_tunnel
    write_known row found = rw (found, write_tunnel) refl

    write_new :
        find_where (has_subdomain tunnel.subdomain) rows ≡ none
        → find_where (λ row. row.id =s tunnel.id) rows ≡ none
        → write_tunnel driver now_ms tunnel rows ≡ (rows ++ new_row now_ms tunnel ∷ [], ok tt)
    unfolding write_tunnel
    write_new missing fresh = rw (missing, fresh, write_tunnel) refl

    -- The row that the statement leaves for the subdomain.
    write_tunnel_row :
        find_where (λ row. row.id =s tunnel.id) rows ≡ none
        → let (after, result) = write_tunnel driver now_ms tunnel rows in
          (row : TunnelRow) × (result ≡ ok tt)
          × (find_where (has_subdomain tunnel.subdomain) after ≡ some row)
          × Holds tunnel row
    unfolding overwrite new_row find_where
    write_tunnel_row fresh =
        elim (Option-cases (find_where (has_subdomain tunnel.subdomain) rows)) [
          | inr (row, found) ↦ rw (write_known row found) (
            overwrite now_ms tunnel row,
            refl,
            find_where-update_where tunnel.subdomain (overwrite now_ms tunnel) (λ r. refl) rows
                ∙ ap (mapped (overwrite now_ms tunnel)) found,
            (find_where-subdomain tunnel.subdomain rows row found, refl, refl, refl),
          )
          | inl missing ↦ rw (write_new missing fresh) (
            new_row now_ms tunnel,
            refl,
            find_where-append tunnel.subdomain (new_row now_ms tunnel) rows missing ∙ first,
            (refl, refl, refl, refl),
          )
        ]
      where
        first :
            find_where (has_subdomain tunnel.subdomain) (new_row now_ms tunnel ∷ [])
            ≡ some (new_row now_ms tunnel)
        first = ground (arith, eq_iff tunnel.subdomain tunnel.subdomain)

    write_tunnel_others :
        (other : String)
        → find_where (λ row. row.id =s tunnel.id) rows ≡ none
        → tunnel.subdomain ≢ other
        → find_where (has_subdomain other) (write_tunnel driver now_ms tunnel rows).0
          ≡ find_where (has_subdomain other) rows
    unfolding overwrite new_row
    write_tunnel_others other fresh ne =
        elim (Option-cases (find_where (has_subdomain tunnel.subdomain) rows)) [
          | inr (row, found) ↦ rw (write_known row found) (
              find_where-update_where_ne tunnel.subdomain (overwrite now_ms tunnel) (λ r. refl)
                other rows ne)
          | inl missing ↦
              rw (write_new missing fresh)
                (find_where-append_ne other (new_row now_ms tunnel) rows ne)
        ]

    -- A tunnel with a 16-bit port or none, whose id is not in use, is created if the statement is
    -- answered: whether its subdomain was known or not, the lookup of the subdomain then returns an
    -- active tunnel with its protocol and its port. The lookups of other subdomains return what they
    -- returned before.
    pub get_tunnel_by_subdomain-create_tunnel :
        find_where (λ row. row.id =s tunnel.id) rows ≡ none
        → let (after, result) = create_tunnel driver answered now_ms tunnel rows in
          ((t : Tunnel) × (result ≡ ok tt)
            × (get_tunnel_by_subdomain answered tunnel.subdomain after ≡ ok (some t))
            × Serves tunnel t)
          × ((other : String)
              → tunnel.subdomain ≢ other
              → get_tunnel_by_subdomain answered other after
                ≡ get_tunnel_by_subdomain answered other rows)
    unfolding create_tunnel get_tunnel_by_subdomain
    get_tunnel_by_subdomain-create_tunnel fresh =
        let (row, done, found, holds) = write_tunnel_row fresh in
        (
          (read_row row, done, get_tunnel_found _ row found, read_row-Serves row holds),
          λ other ne. ap (λ found. ok (read_tunnel found)) (write_tunnel_others other fresh ne),
        )
