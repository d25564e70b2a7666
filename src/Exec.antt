-- ===== src/Exec.antt =====
-- Code that can return, return an error, panic (an index or a slice out of bounds), or, in the
-- model of a loop, run out of fuel.
pub mod Laws
use jrok_rs.Error.{Error}

pub data Exec {ℓ} (A : Type ℓ) : Type ℓ where
  returns : A → Exec A
  fails : Error → Exec A
  panics : Exec A
  out_of_fuel : Exec A

infixl 5 ◌>>=◌
abbrev pub ◌>>=◌ {ℓ κ} : {A : Type ℓ} {B : Type κ} → Exec A → (A → Exec B) → Exec B
returns a >>= f = f a
fails e >>= f = fails e
panics >>= f = panics
out_of_fuel >>= f = out_of_fuel

-- The run ends: with a value or with an error, not by a panic and not for want of fuel.
abbrev pub Ends {ℓ} : {A : Type ℓ} → Exec A → Type 0
Ends (returns a) = Unit {0}
Ends (fails e) = Unit {0}
Ends panics = ⊥
Ends out_of_fuel = ⊥
