-- ===== src/Base/Map.antt =====
-- HashMap<String, V> as an association list. The order of the list stands for the order in which
-- the table is iterated, which Rust leaves open; no theorem depends on it.
use Prim.Native.Nat.{suc, ◌≤◌}
use Prim.Native.String.{String}
use mathlib.Core.Path.{◌≡◌, refl}
use mathlib.Core.Logic.{◌≢◌}
use mathlib.Core.Bool.{Bool}
use mathlib.Core.Option.{Option, none, some}
use mathlib.Core.List.{List, [], ◌∷◌}
use native.Mathlib.Omega.{arith}
use text.Mathlib.Text.{◌==◌}
use text.Mathlib.TextEquality.{eq_iff}
use jrok_rs.Base.Tests.{if◌then◌else◌}
use jrok_rs.Base.Lists.{length}

abbrev pub StrMap {ℓ} : Type ℓ → Type ℓ
StrMap V = List (String × V)

module _ {ℓ} {V : Type ℓ} where
  unfoldable pub get : String → StrMap V → Option V
  get k [] = none
  get k ((j, v) ∷ m) = if j == k then some v else get k m

  unfoldable pub insert : String → V → StrMap V → StrMap V
  insert k v [] = (k, v) ∷ []
  insert k v ((j, old) ∷ rest) =
      let others = insert k v rest in if j == k then (j, v) ∷ rest else (j, old) ∷ others

  unfoldable pub remove : String → StrMap V → StrMap V
  remove k [] = []
  remove k ((j, w) ∷ m) = if j == k then remove k m else (j, w) ∷ remove k m

  unfoldable pub retain : (String → V → Bool) → StrMap V → StrMap V
  retain p [] = []
  retain p ((j, w) ∷ m) = if p j w then (j, w) ∷ retain p m else retain p m

  -- What a test keeps of a binding.
  abbrev pub keep : (V → Bool) → Option V → Option V
  keep p none = none
  keep p (some v) = if p v then some v else none

  -- No key is bound twice.
  abbrev pub Unique : StrMap V → Type ℓ
  Unique [] = Unit {ℓ}
  Unique ((j, w) ∷ m) = (get j m ≡ none) × Unique m

  -- Every value satisfies `P` at its key.
  abbrev pub AllValues {κ} : (String → V → Type κ) → StrMap V → Type κ
  AllValues P [] = Unit {κ}
  AllValues P ((j, w) ∷ m) = P j w × AllValues P m

module _ {ℓ} {V : Type ℓ} where
  pub get-insert :
      (k j : String) (v : V) (m : StrMap V)
      → get j (insert k v m) ≡ (if k == j then some v else get j m)
  unfolding get insert
  get-insert k j v [] = refl
  get-insert k j v ((i, w) ∷ m) =
      ground (arith, eq_iff k j, eq_iff i k, eq_iff i j, get-insert k j v m)

  pub get-insert_self : (k : String) (v : V) (m : StrMap V) → get k (insert k v m) ≡ some v
  get-insert_self k v m = ground (arith, get-insert k k v m, eq_iff k k)

  pub get-insert_ne : (k j : String) (v : V) (m : StrMap V) → k ≢ j → get j (insert k v m) ≡ get j m
  get-insert_ne k j v m h = ground (arith, get-insert k j v m, eq_iff k j)

  pub get-remove_self : (k : String) (m : StrMap V) → get k (remove k m) ≡ none
  unfolding get remove
  get-remove_self k [] = refl
  get-remove_self k ((i, w) ∷ m) = ground (arith, eq_iff i k, get-remove_self k m)

  pub get-remove_ne : (k j : String) (m : StrMap V) → k ≢ j → get j (remove k m) ≡ get j m
  unfolding get remove
  get-remove_ne k j [] h = refl
  get-remove_ne k j ((i, w) ∷ m) h = ground (arith, eq_iff i k, eq_iff i j, get-remove_ne k j m h)

  -- A key that was free is free again after an insertion that is taken back; no other key notices.
  pub get-remove-insert :
      (k j : String) (v : V) (m : StrMap V)
      → get k m ≡ none
      → get j (remove k (insert k v m)) ≡ get j m
  get-remove-insert k j v m free = ground (
    arith,
    eq_iff k j,
    get-remove_self k (insert k v m),
    get-remove_ne k j (insert k v m),
    get-insert_ne k j v m,
  )

  pub get-retain-none :
      (p : String → V → Bool) (k : String) (m : StrMap V)
      → get k m ≡ none
      → get k (retain p m) ≡ none
  unfolding get retain
  get-retain-none p k [] h = refl
  get-retain-none p k ((i, w) ∷ m) h = ground (arith, eq_iff i k, get-retain-none p k m)

  pub get-retain :
      (p : V → Bool) (k : String) (m : StrMap V)
      → Unique m
      → get k (retain (λ _. p) m) ≡ keep p (get k m)
  unfolding get retain
  get-retain p k [] u = refl
  get-retain p k ((i, w) ∷ m) u =
      ground (arith, eq_iff i k, get-retain p k m u.1, get-retain-none (λ _. p) k m)

  pub insert-Unique : (k : String) (v : V) (m : StrMap V) → Unique m → Unique (insert k v m)
  unfolding get insert
  insert-Unique k v [] u = (refl, tt)
  insert-Unique k v ((i, w) ∷ m) u =
      ground (arith, eq_iff i k, eq_iff k i, insert-Unique k v m u.1, get-insert k i v m)

  get-remove-none : (k j : String) (m : StrMap V) → get j m ≡ none → get j (remove k m) ≡ none
  unfolding get remove
  get-remove-none k j [] h = refl
  get-remove-none k j ((i, w) ∷ m) h = ground (arith, eq_iff i k, eq_iff i j, get-remove-none k j m)

  pub remove-Unique : (k : String) (m : StrMap V) → Unique m → Unique (remove k m)
  unfolding remove
  remove-Unique k [] u = tt
  remove-Unique k ((i, w) ∷ m) u = ground (arith, remove-Unique k m u.1, get-remove-none k i m)

  pub retain-Unique : (p : String → V → Bool) (m : StrMap V) → Unique m → Unique (retain p m)
  unfolding retain
  retain-Unique p [] u = tt
  retain-Unique p ((i, w) ∷ m) u = ground (arith, retain-Unique p m u.1, get-retain-none p i m)

  pub length-insert-fresh :
      (k : String) (v : V) (m : StrMap V) → get k m ≡ none → length (insert k v m) ≡ suc (length m)
  unfolding get insert
  length-insert-fresh k v [] h = refl
  length-insert-fresh k v ((i, w) ∷ m) h = ground (arith, length-insert-fresh k v m)

  pub length-le-insert : (k : String) (v : V) (m : StrMap V) → length m ≤ length (insert k v m)
  unfolding insert
  length-le-insert k v [] = omega arith
  length-le-insert k v ((i, w) ∷ m) = ground (arith, length-le-insert k v m)

  pub length-remove-le : (k : String) (m : StrMap V) → length (remove k m) ≤ length m
  unfolding remove
  length-remove-le k [] = omega arith
  length-remove-le k ((i, w) ∷ m) = ground (arith, length-remove-le k m)

  pub length-retain-le : (p : String → V → Bool) (m : StrMap V) → length (retain p m) ≤ length m
  unfolding retain
  length-retain-le p [] = omega arith
  length-retain-le p ((i, w) ∷ m) = ground (arith, length-retain-le p m)
