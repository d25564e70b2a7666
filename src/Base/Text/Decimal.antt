-- ===== src/Base/Text/Decimal.antt =====
-- What is printed of a number is read as the number again.
use Prim.Native.Char.{Char, code}
use Prim.Native.Nat.{ℕ, zero, suc, ◌+◌, ◌-◌, ◌*◌, ◌/◌, ◌%◌, ◌^◌, ◌<◌, ◌≤◌}
use Prim.Native.String.{String}
use mathlib.Core.Path.{subst, ◌≡◌, refl, sym, ap, ◌∙◌}
use mathlib.Core.Logic.{◌≢◌, inl, inr}
use mathlib.Core.Option.{some}
use native.Mathlib.Omega.{arith}
use text.Mathlib.TextLemmas.{append-nil, append_assoc, cons-append, nil-append, cons≢nil}
use native.Mathlib.Nat.{pow-suc}
use jrok_rs.Base.Tests.{ltb, ◌==◌, if◌then◌else◌, Bool-cases}
use jrok_rs.Base.Text.{◌+s◌, digit, show_digits, show_ℕ, parse_digits, parse_uint}

-- A text of one digit, with its code.
abbrev IsDigit : ℕ → String → Type 0
IsDigit d s = (c : Char) × (s ≡ String.◌∷◌ c String.[]) × (code c ≡ b'0' + d)

digit-IsDigit : (d : ℕ) → d < 10 → IsDigit d (digit d)
unfolding digit
digit-IsDigit zero small = ("0", refl, refl)
digit-IsDigit (suc zero) small = ("1", refl, refl)
digit-IsDigit (suc (suc zero)) small = ("2", refl, refl)
digit-IsDigit (suc (suc (suc zero))) small = ("3", refl, refl)
digit-IsDigit (suc (suc (suc (suc zero)))) small = ("4", refl, refl)
digit-IsDigit (suc (suc (suc (suc (suc zero))))) small = ("5", refl, refl)
digit-IsDigit (suc (suc (suc (suc (suc (suc zero)))))) small = ("6", refl, refl)
digit-IsDigit (suc (suc (suc (suc (suc (suc (suc zero))))))) small = ("7", refl, refl)
digit-IsDigit (suc (suc (suc (suc (suc (suc (suc (suc zero)))))))) small = ("8", refl, refl)
digit-IsDigit (suc (suc (suc (suc (suc (suc (suc (suc (suc zero))))))))) small = ("9", refl, refl)
digit-IsDigit (suc (suc (suc (suc (suc (suc (suc (suc (suc (suc n)))))))))) small =
    absurd (omega arith)

-- Its first character, in front of anything.
digit-∷ :
    (d : ℕ) (rest : String)
    → d < 10
    → (c : Char) × (digit d +s rest ≡ String.◌∷◌ c rest) × (code c ≡ b'0' + d)
digit-∷ d rest small =
    let (c, eq, value) = digit-IsDigit d small in
    (
      c,
      ap (λ t. t +s rest) eq
          ∙ cons-append c String.[] rest
          ∙ ap (λ t. String.◌∷◌ c t) (nil-append rest),
      value,
    )

parse_digits-∷ :
    (limit acc d : ℕ) (c : Char) (rest : String)
    → d < 10
    → code c ≡ b'0' + d
    → acc * 10 + d < limit
    → parse_digits limit acc (String.◌∷◌ c rest) ≡ parse_digits limit (acc * 10 + d) rest
unfolding parse_digits
parse_digits-∷ limit acc d c rest small value fits =
    let same : acc * 10 + (code c - b'0') ≡ acc * 10 + d = omega (arith, value) in
    rw (same, parse_digits) (ground (arith, value))

parse_digits-digit :
    (limit acc d : ℕ) (rest : String)
    → d < 10
    → acc * 10 + d < limit
    → parse_digits limit acc (digit d +s rest) ≡ parse_digits limit (acc * 10 + d) rest
parse_digits-digit limit acc d rest small fits =
    let (c, eq, value) = digit-∷ d rest small in
    ap (parse_digits limit acc) eq ∙ parse_digits-∷ limit acc d c rest small value fits

-- Some digits in front of a text are read first.
parse_digits-show_digits :
    (limit fuel n : ℕ) (rest : String)
    → n < 10 ^ fuel
    → n < limit
    → parse_digits limit 0 (show_digits fuel n +s rest) ≡ parse_digits limit n rest
unfolding show_digits
parse_digits-show_digits limit zero n rest few fits =
    ap (parse_digits limit 0) (nil-append rest) ∙ ap (λ m. parse_digits limit m rest) (omega arith)
parse_digits-show_digits limit (suc fuel) n rest few fits = elim (Bool-cases (ltb n 10)) [
  | inl small ↦
      rw (small, show_digits)
        (parse_digits-digit limit 0 n rest (ground arith) (omega arith)
          ∙ ap (λ m. parse_digits limit m rest) (omega arith))
  | inr large ↦
      rw (large, show_digits)
        (ap (parse_digits limit 0) (append_assoc (show_digits fuel (n / 10)) (digit (n % 10)) rest)
          ∙ parse_digits-show_digits limit fuel (n / 10) (digit (n % 10) +s rest)
              (omega (arith, pow-suc 10 fuel)) (omega arith)
          ∙ parse_digits-digit limit (n / 10) (n % 10) rest (omega arith) (omega arith)
          ∙ ap (λ m. parse_digits limit m rest) (omega arith))
]

-- Texts of digits only.
abbrev pub AllDigits : String → Type 0
AllDigits String.[] = Unit
AllDigits (String.◌∷◌ c s) = (b'0' ≤ code c) × (code c ≤ b'9') × AllDigits s

append-AllDigits : (s t : String) → AllDigits s → AllDigits t → AllDigits (s +s t)
append-AllDigits String.[] t given given' = subst AllDigits (sym (nil-append t)) given'
append-AllDigits (String.◌∷◌ c s) t (low, high, given) given' =
    subst AllDigits (sym (cons-append c s t)) (low, high, append-AllDigits s t given given')

digit-AllDigits : (d : ℕ) → d < 10 → AllDigits (digit d)
digit-AllDigits d small =
    let (c, eq, value) = digit-IsDigit d small in
    subst AllDigits (sym eq) (omega (arith, value), omega (arith, value), tt)

show_digits-AllDigits : (fuel n : ℕ) → AllDigits (show_digits fuel n)
unfolding show_digits
show_digits-AllDigits zero n = tt
show_digits-AllDigits (suc fuel) n = elim (Bool-cases (ltb n 10)) [
  | inl small ↦ rw (small, show_digits) (digit-AllDigits n (ground arith))
  | inr large ↦
      rw (large, show_digits)
        (append-AllDigits (show_digits fuel (n / 10)) (digit (n % 10))
          (show_digits-AllDigits fuel (n / 10)) (digit-AllDigits (n % 10) (omega arith)))
]

pub show_ℕ-AllDigits : (n : ℕ) → AllDigits (show_ℕ n)
unfolding show_ℕ
show_ℕ-AllDigits n = show_digits-AllDigits 20 n

append-digit : (s : String) (d : ℕ) → d < 10 → s +s digit d ≢ ""
append-digit s d small empty =
    let (c, eq, value) = digit-IsDigit d small in append-one s c (sym (ap (λ t. s +s t) eq) ∙ empty)
  where
    append-one : (s : String) (c : Char) → s +s String.◌∷◌ c String.[] ≢ ""
    append-one String.[] c empty = cons≢nil (sym (nil-append _) ∙ empty)
    append-one (String.◌∷◌ a s) c empty = cons≢nil (sym (cons-append a s _) ∙ empty)

show_digits_ne : (fuel n : ℕ) → show_digits (suc fuel) n ≢ ""
unfolding show_digits
show_digits_ne fuel n empty = elim (Bool-cases (ltb n 10)) [
  | inl small ↦ append-digit "" n (ground arith) (
      nil-append (digit n)
      ∙ sym (ap (λ b. if b then digit n else show_digits fuel (n / 10) +s digit (n % 10)) small)
      ∙ empty)
  | inr large ↦ append-digit (show_digits fuel (n / 10)) (n % 10) (omega arith) (
      sym (ap (λ b. if b then digit n else show_digits fuel (n / 10) +s digit (n % 10)) large)
      ∙ empty)
]

-- Digits are read without a sign.
parse_uint-AllDigits :
    (limit : ℕ) (s : String) → AllDigits s → s ≢ "" → parse_uint limit s ≡ parse_digits limit 0 s
unfolding parse_uint
parse_uint-AllDigits limit String.[] given ne = absurd (ne refl)
parse_uint-AllDigits limit (String.◌∷◌ c String.[]) given ne = refl
parse_uint-AllDigits limit (String.◌∷◌ c (String.◌∷◌ d s)) (low, high, given) ne =
    elim (Bool-cases (code c == b'+')) [
      | inl plus ↦ absurd (ground arith)
      | inr digit_first ↦ rw (digit_first, parse_uint) refl
    ]

-- A number below the limit, of at most 20 digits, is read back.
pub parse_uint-show_ℕ :
    (limit n : ℕ) → n < limit → n < 10 ^ 20 → parse_uint limit (show_ℕ n) ≡ some n
unfolding show_ℕ parse_digits
parse_uint-show_ℕ limit n fits few =
    parse_uint-AllDigits limit (show_ℕ n) (show_ℕ-AllDigits n) (show_digits_ne 19 n)
    ∙ ap (parse_digits limit 0) (sym (append-nil (show_digits 20 n)))
    ∙ parse_digits-show_digits limit 20 n "" few fits
