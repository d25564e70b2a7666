-- ===== src/Db/Statement/Rows.antt =====
-- Rows that pass a test, and what an UPDATE and a statement leave as it was.
use jrok_rs.Base.{ℕ, zero, suc, get_elem?, ◌≡◌, Bool, true, false, some, List, [], ◌∷◌, arith}
use jrok_rs.Db.Statement.{Fate, answered, refused, lost, execute, update_where}
use jrok_rs.Error.{Result}

-- Every element passes a test.
abbrev pub AllRows {ℓ} : {A : Type ℓ} → (A → Bool) → List A → Type ℓ
AllRows p [] = Unit
AllRows p (row ∷ rows) = (p row ≡ true) × AllRows p rows

pub update_where-AllRows {ℓ} :
    {A : Type ℓ} (p good : A → Bool) (f : A → A) (rows : List A)
    → ((row : A) → p row ≡ true → good (f row) ≡ true)
    → ((row : A) → p row ≡ false → good row ≡ true)
    → AllRows good (update_where p f rows)
unfolding update_where
update_where-AllRows p good f [] h k = tt
update_where-AllRows p good f (row ∷ rows) h k =
    ground (arith, h row, k row, update_where-AllRows p good f rows h k)

-- An UPDATE leaves the rows that its WHERE clause does not select.
pub update_where_else {ℓ} :
    {A : Type ℓ} (p : A → Bool) (f : A → A) (rows : List A) (i : ℕ) (row : A)
    → get_elem? rows i ≡ some row
    → p row ≡ false
    → get_elem? (update_where p f rows) i ≡ some row
unfolding update_where
update_where_else p f [] i row at other = ground arith
update_where_else p f (x ∷ xs) zero row at other = ground arith
update_where_else p f (x ∷ xs) (suc i) row at other =
    ground (arith, update_where_else p f xs i row at other)

-- What holds before a write and after it holds however the statement ends.
pub execute-holds {ℓ κ} :
    {T : Type ℓ} {A : Type κ} (P : T → Type 0) (fate : Fate) (write : T → T × Result A) (t : T)
    → P t
    → P (write t).0
    → P (execute fate write t).0
execute-holds P answered write t before after = after
execute-holds P (refused e) write t before after = before
execute-holds P (lost e) write t before after = after

-- Rows that pass a test go on passing it after an UPDATE that keeps the test.
pub update_where-keeps {ℓ} :
    {A : Type ℓ} (p good : A → Bool) (f : A → A) (rows : List A)
    → ((row : A) → good row ≡ true → good (f row) ≡ true)
    → AllRows good rows
    → AllRows good (update_where p f rows)
unfolding update_where
update_where-keeps p good f [] keeps h = tt
update_where-keeps p good f (row ∷ rows) keeps h =
    ground (arith, h.0, h.1, keeps row, update_where-keeps p good f rows keeps h.1)
