-- ===== src/Base/Int.antt =====
-- Signed 64-bit integers (i64): integers over the native numbers, and the wrap-around of the casts
-- and of the subtraction that the program makes on its timestamps.
use Prim.Native.Nat.{ℕ, suc, ◌+◌, ◌-◌, ◌%◌, ◌^◌, ◌≤◌, ◌<◌}
use mathlib.Core.Path.{◌≡◌}
use mathlib.Core.Bool.{Bool}
use native.Mathlib.Omega.{arith}
use jrok_rs.Base.Tests.{ltb, leb, if◌then◌else◌}

-- `negsuc n` is -(n + 1).
pub data ℤ : Type 0 where
  pos : ℕ → ℤ
  negsuc : ℕ → ℤ

abbrev pub pos_part : ℤ → ℕ
pos_part (pos n) = n
pos_part (negsuc n) = 0

abbrev pub neg_part : ℤ → ℕ
neg_part (pos n) = 0
neg_part (negsuc n) = suc n

abbrev pub sub_ℕ : ℕ → ℕ → ℤ
sub_ℕ a b = if leb b a then pos (a - b) else negsuc (b - a - 1)

abbrev pub ltb_ℤ : ℤ → ℤ → Bool
ltb_ℤ a b = ltb (pos_part a + neg_part b) (pos_part b + neg_part a)

infix 50 ◌<ℤ◌ ◌≤ℤ◌
abbrev pub ◌<ℤ◌ : ℤ → ℤ → Type 0
a <ℤ b = pos_part a + neg_part b < pos_part b + neg_part a

abbrev pub ◌≤ℤ◌ : ℤ → ℤ → Type 0
a ≤ℤ b = pos_part a + neg_part b ≤ pos_part b + neg_part a

-- The i64 with the same low 64 bits: what `as i64` keeps of a wider or unsigned number.
unfoldable pub wrap_i64 : ℤ → ℤ
wrap_i64 (pos n) = let m = n % 2 ^ 64 in if ltb m (2 ^ 63) then pos m else negsuc (2 ^ 64 - 1 - m)
wrap_i64 (negsuc n) =
    let m = n % 2 ^ 64 in if ltb m (2 ^ 63) then negsuc m else pos (2 ^ 64 - 1 - m)

-- `a - b` and `a + b` on i64, without overflow checks.
unfoldable pub sub_i64 : ℤ → ℤ → ℤ
unfolding wrap_i64
sub_i64 a b = wrap_i64 (sub_ℕ (pos_part a + neg_part b) (neg_part a + pos_part b))

unfoldable pub add_i64 : ℤ → ℤ → ℤ
unfolding wrap_i64
add_i64 a b = wrap_i64 (sub_ℕ (pos_part a + pos_part b) (neg_part a + neg_part b))

-- `n as i64` for an unsigned n.
unfoldable pub as_i64 : ℕ → ℤ
unfolding wrap_i64
as_i64 n = wrap_i64 (pos n)

pub as_i64_small : (n : ℕ) → n < 2 ^ 63 → as_i64 n ≡ pos n
unfolding as_i64
as_i64_small n h = ground arith

-- With both operands in [0, 2^63) the subtraction does not wrap.
pub sub_i64_small : (a b : ℕ) → a < 2 ^ 63 → b < 2 ^ 63 → sub_i64 (pos a) (pos b) ≡ sub_ℕ a b
unfolding sub_i64
sub_i64_small a b ha hb = ground arith

-- An age test against a cutoff `now - timeout` is exact on such times.
pub ltb_ℤ-sub_i64 :
    (now timeout t : ℕ)
    → now < 2 ^ 63
    → timeout < 2 ^ 63
    → ltb_ℤ (sub_i64 (pos now) (pos timeout)) (pos t) ≡ ltb now (t + timeout)
unfolding sub_i64
ltb_ℤ-sub_i64 now timeout t h k = ground arith
