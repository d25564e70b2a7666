-- ===== src/Db/Keys.antt =====
-- src/db/mod.rs, src/db/models.rs and src/api/keys.rs: the table api_keys, and the handlers over it.
-- The HMAC of a text under a key, in base64, is an argument.
pub mod Issued
pub mod Lasting
use Prim.Native.Char.{Char}
use jrok_rs.Base.{
  ℕ, zero, suc, Bool, ◌||◌, Option, none, some, String, List, [], ◌∷◌, map, if◌then◌else◌,
}
use jrok_rs.Base.{◌=s◌}
use jrok_rs.Base.Int.{ℤ, as_i64, ltb_ℤ}
use jrok_rs.Base.Text.{◌+s◌, take_chars}
use jrok_rs.Db.Statement.{Fate, Driver, execute, query, delete_where, find_where, is_some}
use jrok_rs.Error.{Result, ok, err, database, validation}

-- A row, and the struct that is read from it.
pub record ApiKey : Type 0 where
  pub id : String
  pub key_hash : String
  pub key_prefix : String
  pub name : Option String
  pub created_at : ℤ

-- The HMAC-SHA256 of the second text under the first, in base64.
abbrev pub Mac : Type 0
Mac = String → String → String

unfoldable pub hash_api_key : Mac → String → String
hash_api_key mac key = mac "jrok-api-key-v1" key

unfoldable pub key_prefix : String → String
unfolding take_chars
key_prefix key = take_chars 8 key

-- INSERT INTO api_keys: the id is the primary key, the hash is UNIQUE.
unfoldable pub insert_key : Driver → ApiKey → List ApiKey → List ApiKey × Result ApiKey
unfolding find_where
insert_key driver new rows =
    elim (find_where (λ row. row.id =s new.id || row.key_hash =s new.key_hash) rows) [
      | some _ ↦ (rows, err (database driver.broken_constraint))
      | none ↦ (new ∷ rows, ok new)
    ]

unfoldable pub new_key : Mac → (now_ms : ℕ) (id key : String) → Option String → ApiKey
unfolding hash_api_key key_prefix as_i64
new_key mac now_ms id key name = record {
  id = id;
  key_hash = hash_api_key mac key;
  key_prefix = key_prefix key;
  name = name;
  created_at = as_i64 now_ms;
}

-- `Db::create_api_key`
unfoldable pub create_api_key :
    Mac
    → Driver
    → Fate
    → (now_ms : ℕ) (id key : String) → Option String
    → List ApiKey
    → List ApiKey × Result ApiKey
unfolding insert_key new_key
create_api_key mac driver fate now_ms id key name =
    execute fate (insert_key driver (new_key mac now_ms id key name))

-- `Db::validate_api_key`
unfoldable pub validate_api_key : Mac → Fate → String → List ApiKey → Result Bool
unfolding find_where hash_api_key
validate_api_key mac fate key =
    query fate λ rows. ok (is_some (find_where (λ row. row.key_hash =s hash_api_key mac key) rows))

-- A row among those that are ordered by their creation, the newest first.
insert_newest : ApiKey → List ApiKey → List ApiKey
insert_newest row [] = row ∷ []
insert_newest row (other ∷ rest) =
    let later = insert_newest row rest in
    if ltb_ℤ row.created_at other.created_at then other ∷ later else row ∷ other ∷ rest

-- ORDER BY created_at DESC
unfoldable pub newest_first : List ApiKey → List ApiKey
unfolding insert_newest
newest_first [] = []
newest_first (row ∷ rows) = insert_newest row (newest_first rows)

-- `Db::list_api_keys`
unfoldable pub list_api_keys : Fate → List ApiKey → Result (List ApiKey)
unfolding newest_first
list_api_keys fate = query fate λ rows. ok (newest_first rows)

-- `Db::delete_api_key`
unfoldable pub delete_api_key : Fate → String → List ApiKey → List ApiKey × Result (Unit {0})
unfolding delete_where
delete_api_key fate id = execute fate λ rows. (delete_where (λ row. row.id =s id) rows, ok tt)
