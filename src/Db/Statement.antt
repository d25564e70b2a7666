-- ===== src/Db/Statement.antt =====
-- src/db/mod.rs: statements sent to the database, and what SQL means on a table, a list of rows.
pub mod Rows
use jrok_rs.Base.{Bool, true, false, Option, none, some, String, List, [], ◌∷◌, if◌then◌else◌}
use jrok_rs.Error.{Result, ok, err, database}

-- How a statement ends: its answer arrives, it fails before it has an effect, or it has its effect
-- and the answer is lost. A failure comes with the text of the driver's error.
pub data Fate : Type 0 where
  answered : Fate
  refused lost : String → Fate

-- The texts of the errors that the driver has for an ON CONFLICT clause that no constraint fits, for
-- a row that breaks a constraint, and for a NULL that is read as a text.
pub record Driver : Type 0 where
  pub no_constraint : String
  pub broken_constraint : String
  pub null_value : String

-- `conn.execute(…).await?`
abbrev pub execute {ℓ κ} : {T : Type ℓ} {A : Type κ} → Fate → (T → T × Result A) → T → T × Result A
execute answered write t = write t
execute (refused e) write t = (t, err (database e))
execute (lost e) write t = ((write t).0, err (database e))

-- `conn.query(…).await?` and the reading of its rows.
abbrev pub query {ℓ κ} : {T : Type ℓ} {A : Type κ} → Fate → (T → Result A) → T → Result A
query answered read t = read t
query (refused e) read t = err (database e)
query (lost e) read t = err (database e)

module _ {ℓ} {A : Type ℓ} where
  -- UPDATE … WHERE
  unfoldable pub update_where : (A → Bool) → (A → A) → List A → List A
  update_where p f [] = []
  update_where p f (row ∷ rows) =
      let others = update_where p f rows in if p row then f row ∷ others else row ∷ others

  -- DELETE FROM … WHERE
  unfoldable pub delete_where : (A → Bool) → List A → List A
  delete_where p [] = []
  delete_where p (row ∷ rows) =
      let others = delete_where p rows in if p row then others else row ∷ others

  -- The first row of SELECT … WHERE
  unfoldable pub find_where : (A → Bool) → List A → Option A
  find_where p [] = none
  find_where p (row ∷ rows) = let later = find_where p rows in if p row then some row else later

  abbrev pub is_some : Option A → Bool
  is_some none = false
  is_some (some a) = true

-- `row.get::<String>(i)?` of a column that may be NULL.
unfoldable pub text_column : Driver → Option String → Result String
text_column driver none = err (database driver.null_value)
text_column driver (some s) = ok s
