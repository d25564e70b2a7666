-- ===== src/Stun/Parse/Cookie.antt =====
-- The bytes of the magic cookie as masks, checked over all bytes.
use Prim.Native.Nat.{bit_xor}
use jrok_rs.Base.{
  ℕ, zero, suc, ◌+◌, ◌*◌, ◌<◌, ◌≡◌, ◌≢◌, refl, arith, true, false, if◌then◌else◌, Bool, ◌==◌, ◌&&◌,
  ltb, not, ==_iff,
}

-- The test holds of every number below the bound.
pub passes_below : (ℕ → Bool) → ℕ → Bool
passes_below test zero = true
passes_below test (suc bound) =
    let smaller = passes_below test bound in if test bound then smaller else false

passes_below_sound :
    (test : ℕ → Bool) (bound n : ℕ) → passes_below test bound ≡ true → n < bound → test n ≡ true
unfolding passes_below
passes_below_sound test zero n passed below = absurd (omega arith)
passes_below_sound test (suc bound) n passed below = ground (arith, passes_below_sound test bound n)

-- Masking a byte twice gives it back.
abbrev pub Toggles : ℕ → Type 0
Toggles m = passes_below (λ x. bit_xor (bit_xor x m) m == x) 256 ≡ true

pub xor_twice : (x m : ℕ) → Toggles m → x < 256 → bit_xor (bit_xor x m) m ≡ x
xor_twice x m t h = (==_iff _ x).0 (passes_below_sound _ 256 x t h)

pub cookie-Toggles : Toggles 0x21 × Toggles 0x12 × Toggles 0xA4 × Toggles 0x42
unfolding passes_below
cookie-Toggles = (refl, refl, refl, refl)

masked_table :
    (passes_below (λ x. ltb (bit_xor x 0x21) 256 && not (bit_xor x 0x21 == x)) 256 ≡ true)
    × (passes_below (λ x. ltb (bit_xor x 0x12) 256) 256 ≡ true)
unfolding passes_below
masked_table = (refl, refl)

-- A masked port is another port.
pub xor_port-ne :
    (hi lo : ℕ) → hi < 256 → lo < 256 → bit_xor hi 0x21 * 256 + bit_xor lo 0x12 ≢ hi * 256 + lo
xor_port-ne hi lo h l =
    let p =
      passes_below_sound (λ x. ltb (bit_xor x 0x21) 256 && not (bit_xor x 0x21 == x)) 256 hi
        masked_table.0 h in
    let q = passes_below_sound (λ x. ltb (bit_xor x 0x12) 256) 256 lo masked_table.1 l in
    ground arith
