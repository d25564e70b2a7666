-- ===== src/Api.antt =====
-- src/api/keys.rs: the handlers for API keys, over the table api_keys.
pub mod Lifetime
use jrok_rs.Base.{ℕ, Bool, Option, none, some, String, List, map}
use jrok_rs.Base.Int.{ℤ}
use jrok_rs.Base.Text.{◌+s◌}
use jrok_rs.Db.Keys
use jrok_rs.Db.Keys.{ApiKey, Mac}
use jrok_rs.Db.Statement.{Fate, Driver}
use jrok_rs.Error.{Result, ok, err, validation}

pub record ApiKeyResponse : Type 0 where
  pub id : String
  pub name : String
  pub key : String
  pub key_prefix : String
  pub created_at : ℤ

pub record ApiKeyInfo : Type 0 where
  pub id : String
  pub name : Option String
  pub key_prefix : String
  pub created_at : ℤ

pub record ApiKeyListResponse : Type 0 where
  pub keys : List ApiKeyInfo

-- `unwrap_or_default`
abbrev text_or_empty : Option String → String
text_or_empty none = ""
text_or_empty (some s) = s

-- The key that is made of a random text.
abbrev pub key_of : (random_key : String) → String
key_of random_key = "jrok_" +s random_key

abbrev pub response_of : (key : String) → Result ApiKey → Result ApiKeyResponse
response_of key (err e) = err e
response_of key (ok api_key) = ok (record {
  id = api_key.id;
  name = text_or_empty api_key.name;
  key = key;
  key_prefix = api_key.key_prefix;
  created_at = api_key.created_at;
})

-- `create_api_key`, with the two random texts that it draws.
unfoldable pub create_api_key :
    Mac
    → Driver
    → Fate
    → (now_ms : ℕ) (random_id random_key name : String) → List ApiKey
    → List ApiKey × Result ApiKeyResponse
unfolding Keys.create_api_key
create_api_key mac driver fate now_ms random_id random_key name rows =
    let key = key_of random_key in
    let (rows', result) =
      Keys.create_api_key mac driver fate now_ms random_id key (some name) rows in
    (rows', response_of key result)

unfoldable pub info_of : ApiKey → ApiKeyInfo
info_of k = record {
  id = k.id;
  name = k.name;
  key_prefix = k.key_prefix;
  created_at = k.created_at;
}

abbrev pub infos_of : Result (List ApiKey) → Result ApiKeyListResponse
unfolding info_of
infos_of (err e) = err e
infos_of (ok keys) = ok (record { keys = map info_of keys })

-- `list_api_keys`
unfoldable pub list_api_keys : Fate → List ApiKey → Result ApiKeyListResponse
unfolding Keys.list_api_keys infos_of
list_api_keys fate rows = infos_of (Keys.list_api_keys fate rows)

abbrev pub deleted : Result (Unit {0}) → Result String
deleted (err e) = err e
deleted (ok _) = ok "API key deleted"

-- `delete_api_key`
unfoldable pub delete_api_key : Fate → String → List ApiKey → List ApiKey × Result String
unfolding Keys.delete_api_key
delete_api_key fate id rows =
    let (rows', result) = Keys.delete_api_key fate id rows in (rows', deleted result)

-- `validate_api_key_direct`: the text under "key" in the request's JSON, if there is one.
unfoldable pub validate_api_key_direct : Mac → Fate → Option String → List ApiKey → Result Bool
unfolding Keys.validate_api_key
validate_api_key_direct mac fate none rows = err (validation "Missing 'key' field")
validate_api_key_direct mac fate (some key) rows = Keys.validate_api_key mac fate key rows
