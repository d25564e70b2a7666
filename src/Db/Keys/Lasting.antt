-- ===== src/Db/Keys/Lasting.antt =====
-- What statements on the table api_keys do to a key that is in it, and to one that is not.
use jrok_rs.Base.{
  ◌≡◌, refl, ◌∙◌, Bool, true, false, inl, inr, Option-cases, Bool-cases, ◌||◌, ◌&&◌, none, String,
  List, [], ◌∷◌, arith, eq_iff, ◌=s◌,
}
use jrok_rs.Db.Keys.{new_key, ApiKey, Mac, hash_api_key, insert_key, create_api_key, delete_api_key}
use jrok_rs.Db.Keys.Issued.{KeyStep, create, delete, key_step, key_steps, takes_effect}
use jrok_rs.Db.Statement.{answered, refused, lost, Driver, delete_where, find_where, is_some}

-- Whether a statement deletes the id.
unfoldable pub withdraws : (id : String) → KeyStep → Bool
withdraws id (delete fate other) = takes_effect fate && other =s id
withdraws id (create fate now_ms other key name) = false

-- Whether a statement inserts a key with the hash, if nothing in the table forbids it.
unfoldable pub reissues : Mac → (key_hash : String) → KeyStep → Bool
unfolding hash_api_key
reissues mac key_hash (create fate now_ms id key name) =
    takes_effect fate && hash_api_key mac key =s key_hash
reissues mac key_hash (delete fate id) = false

abbrev pub has_hash : String → ApiKey → Bool
has_hash key_hash row = row.key_hash =s key_hash

abbrev has_id : String → ApiKey → Bool
has_id id row = row.id =s id

-- A row has the hash, and every row that has it has the id.
abbrev pub Holds : (id key_hash : String) → List ApiKey → Type 0
Holds id key_hash rows =
    (is_some (find_where (has_hash key_hash) rows) ≡ true)
    × (find_where (has_hash key_hash) (delete_where (has_id id) rows) ≡ none)

module _ (key_hash : String) where
  delete_where-none :
      (id : String) (rows : List ApiKey)
      → find_where (has_hash key_hash) rows ≡ none
      → find_where (has_hash key_hash) (delete_where (has_id id) rows) ≡ none
  unfolding find_where delete_where
  delete_where-none id [] absent = refl
  delete_where-none id (row ∷ rows) absent = ground (arith, delete_where-none id rows)

  delete_where-Holds :
      (id other : String) (rows : List ApiKey)
      → (other =s id) ≡ false
      → find_where (has_hash key_hash) (delete_where (has_id id) rows) ≡ none
      → (is_some (find_where (has_hash key_hash) (delete_where (has_id other) rows))
          ≡ is_some (find_where (has_hash key_hash) rows))
        × (find_where
              (has_hash key_hash)
              (delete_where (has_id id) (delete_where (has_id other) rows))
            ≡ none)
  unfolding find_where delete_where
  delete_where-Holds id other [] ne alone = (refl, refl)
  delete_where-Holds id other (row ∷ rows) ne alone = ground (
    arith,
    eq_iff other id,
    eq_iff row.id id,
    eq_iff row.id other,
    delete_where-Holds id other rows ne,
  )

  insert_key-none :
      (driver : Driver) (new : ApiKey) (rows : List ApiKey)
      → (new.key_hash =s key_hash) ≡ false
      → find_where (has_hash key_hash) rows ≡ none
      → find_where (has_hash key_hash) (insert_key driver new rows).0 ≡ none
  unfolding insert_key find_where
  insert_key-none driver new rows ne absent = ground arith

  -- A key stays absent.
  key_step-none :
      (mac : Mac) (driver : Driver) (step : KeyStep) (rows : List ApiKey)
      → reissues mac key_hash step ≡ false
      → find_where (has_hash key_hash) rows ≡ none
      → find_where (has_hash key_hash) (key_step mac driver step rows) ≡ none
  unfolding key_step create_api_key delete_api_key new_key reissues
  key_step-none mac driver (create answered now_ms id key name) rows other absent =
      insert_key-none driver (new_key mac now_ms id key name) rows other absent
  key_step-none mac driver (create (refused e) now_ms id key name) rows other absent = absent
  key_step-none mac driver (create (lost e) now_ms id key name) rows other absent =
      insert_key-none driver (new_key mac now_ms id key name) rows other absent
  key_step-none mac driver (delete answered id) rows other absent = delete_where-none id rows absent
  key_step-none mac driver (delete (refused e) id) rows other absent = absent
  key_step-none mac driver (delete (lost e) id) rows other absent = delete_where-none id rows absent

  pub key_steps-none :
      (mac : Mac) (driver : Driver) (steps : List KeyStep) (rows : List ApiKey)
      → find_where (reissues mac key_hash) steps ≡ none
      → find_where (has_hash key_hash) rows ≡ none
      → find_where (has_hash key_hash) (key_steps mac driver steps rows) ≡ none
  unfolding key_steps find_where
  key_steps-none mac driver [] rows others absent = absent
  key_steps-none mac driver (step ∷ steps) rows others absent =
      elim (Bool-cases (reissues mac key_hash step)) [
        | inl again ↦ ground arith
        | inr other ↦
            key_steps-none mac driver steps _ (ground arith)
              (key_step-none mac driver step rows other absent)
      ]

  -- A row that breaks no constraint has another hash than one in the table.
  untaken-other :
      (new : ApiKey) (rows : List ApiKey)
      → is_some (find_where (has_hash key_hash) rows) ≡ true
      → find_where (λ row. row.id =s new.id || row.key_hash =s new.key_hash) rows ≡ none
      → (new.key_hash =s key_hash) ≡ false
  unfolding find_where
  untaken-other new [] held free = ground arith
  untaken-other new (row ∷ rows) held free = ground (
    arith,
    eq_iff row.key_hash key_hash,
    eq_iff row.key_hash new.key_hash,
    eq_iff new.key_hash key_hash,
    untaken-other new rows,
  )

  insert_key-Holds :
      (driver : Driver) (new : ApiKey) (id : String) (rows : List ApiKey)
      → Holds id key_hash rows
      → Holds id key_hash (insert_key driver new rows).0
  unfolding insert_key find_where delete_where
  insert_key-Holds driver new id rows (held, alone) =
      elim (Option-cases
        (find_where (λ row. row.id =s new.id || row.key_hash =s new.key_hash) rows)) [
          | inr (row, taken) ↦ rw (taken, insert_key) (held, alone)
          | inl free ↦
              rw (free, insert_key) (ground arith, ground (arith, untaken-other new rows held free))
        ]

  -- A key stays in the table.
  key_step-Holds :
      (mac : Mac) (driver : Driver) (step : KeyStep) (id : String) (rows : List ApiKey)
      → withdraws id step ≡ false
      → Holds id key_hash rows
      → Holds id key_hash (key_step mac driver step rows)
  unfolding key_step create_api_key delete_api_key withdraws
  key_step-Holds mac driver (create answered now_ms i key name) id rows kept given =
      insert_key-Holds driver (new_key mac now_ms i key name) id rows given
  key_step-Holds mac driver (create (refused e) now_ms i key name) id rows kept given = given
  key_step-Holds mac driver (create (lost e) now_ms i key name) id rows kept given =
      insert_key-Holds driver (new_key mac now_ms i key name) id rows given
  key_step-Holds mac driver (delete answered i) id rows kept (held, alone) =
      let (same, alone') = delete_where-Holds id i rows kept alone in (same ∙ held, alone')
  key_step-Holds mac driver (delete (refused e) i) id rows kept given = given
  key_step-Holds mac driver (delete (lost e) i) id rows kept (held, alone) =
      let (same, alone') = delete_where-Holds id i rows kept alone in (same ∙ held, alone')

  pub key_steps-Holds :
      (mac : Mac) (driver : Driver) (steps : List KeyStep) (id : String) (rows : List ApiKey)
      → find_where (withdraws id) steps ≡ none
      → Holds id key_hash rows
      → Holds id key_hash (key_steps mac driver steps rows)
  unfolding key_steps find_where
  key_steps-Holds mac driver [] id rows others given = given
  key_steps-Holds mac driver (step ∷ steps) id rows others given =
      elim (Bool-cases (withdraws id step)) [
        | inl withdrawn ↦ ground arith
        | inr kept ↦
            key_steps-Holds mac driver steps id _ (ground arith)
              (key_step-Holds mac driver step id rows kept given)
      ]
