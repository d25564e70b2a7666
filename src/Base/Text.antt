-- ===== src/Base/Text.antt =====
-- Numbers as text: the integers that `parse` reads, what `{}` prints of an unsigned integer, and `{:04x}` of a 16-bit one.
pub mod Decimal
use Prim.Native.Char.{code}
use Prim.Native.Nat.{ℕ, zero, suc, ◌+◌, ◌-◌, ◌*◌, ◌/◌, ◌%◌, ◌<◌}
use Prim.Native.String.{String, ◌++◌}
use mathlib.Core.Path.{◌≡◌, refl}
use mathlib.Core.Bool.{◌&&◌}
use mathlib.Core.Option.{Option, none, some}
use native.Mathlib.Omega.{arith}
use jrok_rs.Base.Tests.{ltb, leb, ◌==◌, if◌then◌else◌}

infixr 65 ◌+s◌
abbrev pub ◌+s◌ : String → String → String
◌+s◌ = ◌++◌

-- `chars().take(n).collect()`
unfoldable pub take_chars : ℕ → String → String
take_chars zero s = ""
take_chars (suc n) String.[] = ""
take_chars (suc n) (String.◌∷◌ c s) = String.◌∷◌ c (take_chars n s)

-- One digit, in base 16.
digit : ℕ → String
digit zero = "0"
digit (suc zero) = "1"
digit (suc (suc zero)) = "2"
digit (suc (suc (suc zero))) = "3"
digit (suc (suc (suc (suc zero)))) = "4"
digit (suc (suc (suc (suc (suc zero))))) = "5"
digit (suc (suc (suc (suc (suc (suc zero)))))) = "6"
digit (suc (suc (suc (suc (suc (suc (suc zero))))))) = "7"
digit (suc (suc (suc (suc (suc (suc (suc (suc zero)))))))) = "8"
digit (suc (suc (suc (suc (suc (suc (suc (suc (suc zero))))))))) = "9"
digit (suc (suc (suc (suc (suc (suc (suc (suc (suc (suc n)))))))))) = letter n
  where
    letter : ℕ → String
    letter zero = "a"
    letter (suc zero) = "b"
    letter (suc (suc zero)) = "c"
    letter (suc (suc (suc zero))) = "d"
    letter (suc (suc (suc (suc zero)))) = "e"
    letter _ = "f"

-- Digits from the right; the fuel is the number of digits allowed.
show_digits : ℕ → ℕ → String
unfolding digit
show_digits zero n = ""
show_digits (suc f) n =
    let rest = show_digits f (n / 10) in if ltb n 10 then digit n else rest +s digit (n % 10)

-- 20 digits are enough below 2 ^ 64.
unfoldable pub show_ℕ : ℕ → String
unfolding show_digits
show_ℕ n = show_digits 20 n

unfoldable pub show_hex4 : ℕ → String
unfolding digit
show_hex4 n = digit (n / 4096 % 16) +s digit (n / 256 % 16) +s digit (n / 16 % 16) +s digit (n % 16)

show_ℕ_runs : show_ℕ 19302 ≡ "19302"
unfolding show_ℕ
show_ℕ_runs = refl

show_hex4_runs : show_hex4 0x01af ≡ "01af"
unfolding show_hex4
show_hex4_runs = refl

-- Digits in base 10 behind a number that has been read; a value from the limit on is an error.
unfoldable pub parse_digits : (limit : ℕ) → ℕ → String → Option ℕ
parse_digits limit acc String.[] = some acc
parse_digits limit acc (String.◌∷◌ c s) =
    let n = acc * 10 + (code c - b'0') in
    let rest = parse_digits limit n s in
    if leb b'0' (code c) && leb (code c) b'9' && ltb n limit then rest else none

-- `s.parse()` as an unsigned integer below the limit: at least one digit, behind an optional plus.
unfoldable pub parse_uint : (limit : ℕ) → String → Option ℕ
unfolding parse_digits
parse_uint limit String.[] = none
parse_uint limit (String.◌∷◌ c String.[]) = parse_digits limit 0 (String.◌∷◌ c String.[])
parse_uint limit (String.◌∷◌ c (String.◌∷◌ d s)) =
    if code c == b'+'
    then parse_digits limit 0 (String.◌∷◌ d s)
    else parse_digits limit 0 (String.◌∷◌ c (String.◌∷◌ d s))

parse_digits-lt :
    (limit acc n : ℕ) (s : String) → acc < limit → parse_digits limit acc s ≡ some n → n < limit
unfolding parse_digits
parse_digits-lt limit acc n String.[] low read = ground arith
parse_digits-lt limit acc n (String.◌∷◌ c s) low read =
    ground (arith, parse_digits-lt limit (acc * 10 + (code c - b'0')) n s)

-- A number that is read is below the limit.
pub parse_uint-lt : (limit n : ℕ) (s : String) → 0 < limit → parse_uint limit s ≡ some n → n < limit
unfolding parse_uint
parse_uint-lt limit n String.[] low read = ground arith
parse_uint-lt limit n (String.◌∷◌ c String.[]) low read =
    parse_digits-lt limit 0 n (String.◌∷◌ c String.[]) low read
parse_uint-lt limit n (String.◌∷◌ c (String.◌∷◌ d s)) low read = ground (
  arith,
  parse_digits-lt limit 0 n (String.◌∷◌ d s) low,
  parse_digits-lt limit 0 n (String.◌∷◌ c (String.◌∷◌ d s)) low,
)
