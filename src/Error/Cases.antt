-- ===== src/Error/Cases.antt =====
-- A result is an error or a value, and not both.
use jrok_rs.Base.{◌≡◌, refl, ◌≢◌, ◌⊎◌, inl, inr, arith}
use jrok_rs.Error.{Error, Result, ok, err}

pub Result-cases {ℓ} :
    {A : Type ℓ} (r : Result A) → ((e : Error) × (r ≡ err e)) ⊎ ((a : A) × (r ≡ ok a))
Result-cases (err e) = inl (e, refl)
Result-cases (ok a) = inr (a, refl)

pub ok_ne_err {ℓ} : {A : Type ℓ} {a : A} {e : Error} → ok a ≢ err e
ok_ne_err h = ground arith
