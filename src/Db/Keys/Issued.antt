-- ===== src/Db/Keys/Issued.antt =====
-- Which keys the table accepts after a history of statements: those with the hash of a key that has
-- been issued and not been deleted.
use jrok_rs.Base.{
  ℕ, ◌≡◌, refl, ap, Bool, true, false, ◌||◌, Option, String, List, [], ◌∷◌, arith, if◌then◌else◌,
}
use jrok_rs.Base.{◌=s◌}
use jrok_rs.Db.Keys.{
  new_key, ApiKey, Mac, hash_api_key, insert_key, create_api_key, validate_api_key, delete_api_key,
}
use jrok_rs.Db.Statement.{Fate, answered, refused, lost, Driver, delete_where, find_where, is_some}
use jrok_rs.Error.{ok}

-- A statement on the table.
pub data KeyStep : Type 0 where
  create : (fate : Fate) (now_ms : ℕ) (id key : String) (name : Option String) → KeyStep
  delete : (fate : Fate) (id : String) → KeyStep

unfoldable pub key_step : Mac → Driver → KeyStep → List ApiKey → List ApiKey
unfolding create_api_key delete_api_key
key_step mac driver (create fate now_ms id key name) rows =
    (create_api_key mac driver fate now_ms id key name rows).0
key_step mac driver (delete fate id) rows = (delete_api_key fate id rows).0

unfoldable pub key_steps : Mac → Driver → List KeyStep → List ApiKey → List ApiKey
unfolding key_step
key_steps mac driver [] rows = rows
key_steps mac driver (step ∷ steps) rows =
    key_steps mac driver steps (key_step mac driver step rows)

-- The abstract view: the keys that are valid, each with the id under which it can be deleted.
abbrev pub Issued : Type 0
Issued = List (String × String)

-- Whether a key has the hash of an issued one.
unfoldable pub is_issued : Mac → String → Issued → Bool
unfolding hash_api_key
is_issued mac key [] = false
is_issued mac key ((_, other) ∷ rest) =
    hash_api_key mac other =s hash_api_key mac key || is_issued mac key rest

-- Whether an id is in use.
unfoldable pub is_used : String → Issued → Bool
is_used id [] = false
is_used id ((other, _) ∷ rest) = other =s id || is_used id rest

unfoldable pub revoke : String → Issued → Issued
revoke id [] = []
revoke id ((other, key) ∷ rest) =
    let kept = revoke id rest in if other =s id then kept else (other, key) ∷ kept

-- Whether a statement has its effect.
abbrev pub takes_effect : Fate → Bool
takes_effect answered = true
takes_effect (refused _) = false
takes_effect (lost _) = true

-- A key is issued if its statement takes effect, its id is not in use and no key with its hash is
-- issued; it is revoked with its id.
unfoldable pub spec_step : Mac → KeyStep → Issued → Issued
unfolding is_issued is_used revoke
spec_step mac (create fate now_ms id key name) issued =
    if takes_effect fate
    then if is_used id issued || is_issued mac key issued then issued else (id, key) ∷ issued
    else issued
spec_step mac (delete fate id) issued = if takes_effect fate then revoke id issued else issued

unfoldable pub spec_steps : Mac → List KeyStep → Issued → Issued
unfolding spec_step
spec_steps mac [] issued = issued
spec_steps mac (step ∷ steps) issued = spec_steps mac steps (spec_step mac step issued)

module _ (mac : Mac) where
  -- A table shows the issued keys: row by row the id and the hash.
  Shows : List ApiKey → Issued → Type 0
  Shows [] [] = Unit
  Shows (row ∷ rows) ((id, key) ∷ issued) =
      (row.id ≡ id) × (row.key_hash ≡ hash_api_key mac key) × Shows rows issued
  Shows _ _ = ⊥

  validate_shown :
      (key : String) (rows : List ApiKey) (issued : Issued)
      → Shows rows issued
      → is_some (find_where (λ row. row.key_hash =s hash_api_key mac key) rows)
        ≡ is_issued mac key issued
  unfolding Shows find_where is_issued
  validate_shown key [] [] h = refl
  validate_shown key [] (x ∷ xs) h = absurd h
  validate_shown key (row ∷ rows) [] h = absurd h
  validate_shown key (row ∷ rows) ((id, k) ∷ issued) h =
      ground (arith, h.0, h.1, h.2, validate_shown key rows issued h.2)

  taken_shown :
      (new : ApiKey) (key : String) (rows : List ApiKey) (issued : Issued)
      → Shows rows issued
      → new.key_hash ≡ hash_api_key mac key
      → is_some (find_where (λ row. row.id =s new.id || row.key_hash =s new.key_hash) rows)
        ≡ (is_used new.id issued || is_issued mac key issued)
  unfolding Shows find_where is_issued is_used
  taken_shown new key [] [] h same = refl
  taken_shown new key [] (x ∷ xs) h same = absurd h
  taken_shown new key (row ∷ rows) [] h same = absurd h
  taken_shown new key (row ∷ rows) ((id, k) ∷ issued) h same =
      ground (arith, h.0, h.1, same, taken_shown new key rows issued h.2 same)

  delete_shown :
      (id : String) (rows : List ApiKey) (issued : Issued)
      → Shows rows issued
      → Shows (delete_where (λ row. row.id =s id) rows) (revoke id issued)
  unfolding Shows delete_where revoke
  delete_shown id [] [] h = tt
  delete_shown id [] (x ∷ xs) h = absurd h
  delete_shown id (row ∷ rows) [] h = absurd h
  delete_shown id (row ∷ rows) ((i, k) ∷ issued) h =
      ground (arith, h.0, h.1, h.2, delete_shown id rows issued h.2)

  module _ (driver : Driver) where
    insert_shown :
        (new : ApiKey) (key : String) (rows : List ApiKey) (issued : Issued)
        → Shows rows issued
        → new.key_hash ≡ hash_api_key mac key
        → Shows (insert_key driver new rows).0 (
            if is_used new.id issued || is_issued mac key issued
            then issued
            else (new.id, key) ∷ issued)
    unfolding insert_key Shows
    insert_shown new key rows issued h same = ground (arith, taken_shown new key rows issued h same)

    key_step_shown :
        (step : KeyStep) (rows : List ApiKey) (issued : Issued)
        → Shows rows issued
        → Shows (key_step mac driver step rows) (spec_step mac step issued)
    unfolding key_step spec_step create_api_key delete_api_key new_key
    key_step_shown (create answered now_ms id key name) rows issued h =
        insert_shown _ key rows issued h refl
    key_step_shown (create (refused e) now_ms id key name) rows issued h = h
    key_step_shown (create (lost e) now_ms id key name) rows issued h =
        insert_shown _ key rows issued h refl
    key_step_shown (delete answered id) rows issued h = delete_shown id rows issued h
    key_step_shown (delete (refused e) id) rows issued h = h
    key_step_shown (delete (lost e) id) rows issued h = delete_shown id rows issued h

    key_steps_shown :
        (steps : List KeyStep) (rows : List ApiKey) (issued : Issued)
        → Shows rows issued
        → Shows (key_steps mac driver steps rows) (spec_steps mac steps issued)
    unfolding key_steps spec_steps
    key_steps_shown [] rows issued h = h
    key_steps_shown (step ∷ steps) rows issued h =
        key_steps_shown steps _ _ (key_step_shown step rows issued h)

    -- After any statements on a table that was empty, however they end, a validation that is answered
    -- says whether the key has the hash of a key that has been issued and not been revoked.
    pub validate_api_key-key_steps :
        (steps : List KeyStep) (key : String)
        → validate_api_key mac answered key (key_steps mac driver steps [])
          ≡ ok (is_issued mac key (spec_steps mac steps []))
    unfolding validate_api_key Shows
    validate_api_key-key_steps steps key =
        ap ok (validate_shown key _ _ (key_steps_shown steps [] [] tt))
