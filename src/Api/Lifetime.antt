-- ===== src/Api/Lifetime.antt =====
-- A key from its creation to its deletion.
use jrok_rs.Base.{
  ℕ, ◌≡◌, refl, ap, ◌∙◌, Bool, true, false, ◌||◌, none, some, String, List, [], ◌∷◌, arith, eq_iff,
}
use jrok_rs.Base.{◌=s◌}
use jrok_rs.Api.{
  ApiKeyResponse, key_of, response_of, create_api_key, delete_api_key, validate_api_key_direct,
}
use jrok_rs.Db.Keys
use jrok_rs.Db.Keys.{ApiKey, Mac, hash_api_key, new_key, insert_key}
use jrok_rs.Db.Keys.Issued.{KeyStep, key_steps}
use jrok_rs.Db.Keys.Lasting.{withdraws, reissues, has_hash, Holds, key_steps-Holds, key_steps-none}
use jrok_rs.Db.Statement.{answered, Driver, delete_where, find_where, is_some}
use jrok_rs.Error.{Result, ok}

-- No row has the id or the hash.
abbrev pub is_taken : (id key_hash : String) → ApiKey → Bool
is_taken id key_hash row = row.id =s id || row.key_hash =s key_hash

insert_key-fresh :
    (driver : Driver) (new : ApiKey) (rows : List ApiKey)
    → find_where (is_taken new.id new.key_hash) rows ≡ none
    → insert_key driver new rows ≡ (new ∷ rows, ok new)
unfolding insert_key
insert_key-fresh driver new rows fresh = rw (fresh, insert_key) refl

find_where-delete_where :
    (id key_hash : String) (rows : List ApiKey)
    → find_where (is_taken id key_hash) rows ≡ none
    → find_where (λ row. row.key_hash =s key_hash) (delete_where (λ row. row.id =s id) rows) ≡ none
unfolding find_where delete_where
find_where-delete_where id key_hash [] fresh = refl
find_where-delete_where id key_hash (row ∷ rows) fresh =
    ground (arith, find_where-delete_where id key_hash rows)

find_where-untaken :
    (id key_hash : String) (rows : List ApiKey)
    → find_where (is_taken id key_hash) rows ≡ none
    → find_where (λ row. row.key_hash =s key_hash) rows ≡ none
unfolding find_where
find_where-untaken id key_hash [] fresh = refl
find_where-untaken id key_hash (row ∷ rows) fresh =
    ground (arith, find_where-untaken id key_hash rows)

find_where-hash :
    (new : ApiKey) (rows : List ApiKey)
    → find_where (λ row. row.key_hash =s new.key_hash) (new ∷ rows) ≡ some new
unfolding find_where
find_where-hash new rows = ground (arith, eq_iff new.key_hash new.key_hash)

delete_where-id :
    (new : ApiKey) (rows : List ApiKey)
    → delete_where (λ row. row.id =s new.id) (new ∷ rows)
      ≡ delete_where (λ row. row.id =s new.id) rows
unfolding delete_where
delete_where-id new rows = ground (arith, eq_iff new.id new.id)

module _ (mac : Mac) (driver : Driver) (now_ms : ℕ) (random_id random_key name : String)
    (rows : List ApiKey)
    (fresh : find_where (is_taken random_id (hash_api_key mac (key_of random_key))) rows
      ≡ none) where
  new_row : ApiKey
  new_row = new_key mac now_ms random_id (key_of random_key) (some name)

  created :
      create_api_key mac driver answered now_ms random_id random_key name rows
      ≡ (new_row ∷ rows, response_of (key_of random_key) (ok new_row))
  unfolding create_api_key Keys.create_api_key new_row new_key
  created =
      ap (λ (r : List ApiKey × Result ApiKey). (r.0, response_of (key_of random_key) r.1))
        (insert_key-fresh driver new_row rows fresh)

  key_hash : String
  key_hash = hash_api_key mac (key_of random_key)

  created-Holds : Holds random_id key_hash (new_row ∷ rows)
  unfolding new_row new_key key_hash
  created-Holds = (
    ap is_some (find_where-hash new_row rows),
    ap (find_where (has_hash key_hash)) (delete_where-id new_row rows)
        ∙ find_where-delete_where random_id key_hash rows fresh,
  )

  -- If its random id and its hash are not in the table, then a key is made, and its answer has the
  -- key and the id. The key is not accepted before. It is accepted after any statements that follow
  -- its creation and do not delete its id, however they end; and once its id has been deleted it is
  -- not accepted after any statements that create no key with its hash. The creation, the deletion
  -- and the validations are answered.
  pub validate_api_key_direct-create_api_key :
      (during later : List KeyStep)
      → find_where (withdraws random_id) during ≡ none
      → find_where (reissues mac (hash_api_key mac (key_of random_key))) later ≡ none
      → let (after, result) =
          create_api_key mac driver answered now_ms random_id random_key name rows in
        let check = validate_api_key_direct mac answered (some (key_of random_key)) in
        let used = key_steps mac driver during after in
        let deleted = (delete_api_key answered random_id used).0 in
        ((response : ApiKeyResponse) × (result ≡ ok response)
          × (response.key ≡ key_of random_key)
          × (response.id ≡ random_id))
        × (check rows ≡ ok false)
        × (check used ≡ ok true)
        × (check (key_steps mac driver later deleted) ≡ ok false)
  unfolding validate_api_key_direct Keys.validate_api_key delete_api_key Keys.delete_api_key
      key_hash new_row new_key
  validate_api_key_direct-create_api_key during later kept others =
      let (held, alone) =
        key_steps-Holds key_hash mac driver during random_id (new_row ∷ rows) kept created-Holds in
      rw created (
        (_, refl, refl, refl),
        ap (λ o. ok (is_some o)) (find_where-untaken random_id key_hash rows fresh),
        ap ok held,
        ap (λ o. ok (is_some o)) (key_steps-none key_hash mac driver later _ others alone),
      )
