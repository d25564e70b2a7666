-- ===== src/Exec/Laws.antt =====
-- Rules for `Ends`: through a bind, and through a test.
use jrok_rs.Base.{◌≡◌, refl, Option, none, some, Bool, true, false, if◌then◌else◌}
use jrok_rs.Exec.{Exec, Ends, returns, fails, panics, out_of_fuel, ◌>>=◌}

-- A bind ends if its first part does and the rest does at the value that it returns.
pub >>=-Ends {ℓ κ} :
    {A : Type ℓ} {B : Type κ} (m : Exec A) (f : A → Exec B)
    → Ends m
    → ((a : A) → m ≡ returns a → Ends (f a))
    → Ends (m >>= f)
>>=-Ends (returns a) f e h = h a refl
>>=-Ends (fails x) f e h = tt
>>=-Ends panics f e h = e
>>=-Ends out_of_fuel f e h = e

pub if-Ends {ℓ} :
    {A : Type ℓ} (b : Bool) (x y : Exec A)
    → (b ≡ true → Ends x)
    → (b ≡ false → Ends y)
    → Ends (if b then x else y)
if-Ends true x y h k = h refl
if-Ends false x y h k = k refl

-- The value that a run returns.
abbrev pub returned {ℓ} : {A : Type ℓ} → Exec A → Option A
returned (returns a) = some a
returned (fails e) = none
returned panics = none
returned out_of_fuel = none

-- What a run returns, if it returns, satisfies `P`.
abbrev pub Returns {ℓ} : {A : Type ℓ} → (A → Type 0) → Exec A → Type 0
Returns P (returns a) = P a
Returns P (fails e) = Unit
Returns P panics = Unit
Returns P out_of_fuel = Unit

pub >>=-Returns {ℓ κ} :
    {A : Type ℓ} {B : Type κ} (P : B → Type 0) (m : Exec A) (f : A → Exec B)
    → ((a : A) → m ≡ returns a → Returns P (f a))
    → Returns P (m >>= f)
>>=-Returns P (returns a) f h = h a refl
>>=-Returns P (fails e) f h = tt
>>=-Returns P panics f h = tt
>>=-Returns P out_of_fuel f h = tt
