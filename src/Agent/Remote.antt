-- ===== src/Agent/Remote.antt =====
-- src/agent/registry.rs: the lookup of an agent's server, against the one of src/db/mod.rs.
use jrok_rs.Base.{
  ◌≡◌, refl, sym, ap, ◌∙◌, ◌⊎◌, inl, inr, Bool, true, Option, none, some, String, List, [], ◌∷◌,
  arith, if◌then◌else◌, Option-cases,
}
use jrok_rs.Db.Agents
use jrok_rs.Db.Agents.{
  AgentRow, Agent, newest_active, get_agent_by_subdomain, read_agent, read_found, server_of,
}
use jrok_rs.Db.Statement.{Fate, answered, Driver, text_column}
use jrok_rs.Error.{Result, ok, err, database}

abbrev active_server : Result (Option Agent) → Result (Option String)
active_server (err e) = err e
active_server (ok none) = ok none
active_server (ok (some agent)) = if agent.active then ok (some agent.server_id) else ok none

-- `AgentRegistry::get_agent_server`
unfoldable pub get_agent_server : Driver → Fate → String → List AgentRow → Result (Option String)
unfolding get_agent_by_subdomain
get_agent_server driver fate subdomain rows =
    active_server (get_agent_by_subdomain driver fate subdomain rows)

is_active : Option AgentRow → Bool
is_active none = true
is_active (some row) = row.active

newest_active-is_active :
    (subdomain : String) (rows : List AgentRow) → is_active (newest_active subdomain rows) ≡ true
unfolding newest_active is_active
newest_active-is_active subdomain [] = refl
newest_active-is_active subdomain (row ∷ rows) =
    elim (Option-cases (newest_active subdomain rows)) [
      | inl nobody ↦ ground (arith, newest_active-is_active subdomain rows)
      | inr (other, found) ↦ ground (arith, newest_active-is_active subdomain rows)
    ]

module _ (driver : Driver) where
  active_server-read_found :
      (row : AgentRow) (tunnel_id : String)
      → row.tunnel_id ≡ some tunnel_id
      → row.active ≡ true
      → active_server (read_found driver (some row)) ≡ ok (some row.server_id)
  unfolding read_agent text_column
  active_server-read_found row tunnel_id given active = ground (arith, given, active)

  active_server-null :
      (row : AgentRow)
      → row.tunnel_id ≡ none
      → active_server (read_found driver (some row)) ≡ err (database driver.null_value)
  unfolding read_agent text_column
  active_server-null row null = ground (arith, null)

  -- If it is answered, the lookup of the registry returns what the lookup of the database returns,
  -- except when the newest active row of the subdomain has no tunnel: then it fails with the error
  -- of a NULL that is read as a text.
  pub get_agent_server-Agents :
      (subdomain : String) (rows : List AgentRow)
      → (get_agent_server driver answered subdomain rows
          ≡ Agents.get_agent_server answered subdomain rows)
        ⊎ ((row : AgentRow) × (newest_active subdomain rows ≡ some row)
            × (row.tunnel_id ≡ none)
            × (get_agent_server driver answered subdomain rows ≡ err (database driver.null_value)))
  unfolding get_agent_server get_agent_by_subdomain Agents.get_agent_server is_active
  get_agent_server-Agents subdomain rows = elim (Option-cases (newest_active subdomain rows)) [
    | inl nobody ↦ inl (rw nobody refl)
    | inr (row, found) ↦ elim (Option-cases row.tunnel_id) [
      | inl null ↦ inr (
        row,
        found,
        null,
        ap (λ o. active_server (read_found driver o)) found ∙ active_server-null row null,
      )
      | inr (tunnel_id, given) ↦ inl (
          ap (λ o. active_server (read_found driver o)) found
          ∙ active_server-read_found row tunnel_id given
              (sym (ap is_active found) ∙ newest_active-is_active subdomain rows)
          ∙ sym (ap (λ o. ok (server_of o)) found))
    ]
  ]
