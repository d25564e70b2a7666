-- ===== src/Bytes.antt =====
-- Slices of bytes (`&[u8]`) as lists of numbers, with the panics of Rust's indexing.
pub mod Laws
use jrok_rs.Base.{
  ℕ, ◌+◌, ◌-◌, ◌*◌, ◌%◌, ◌/◌, Bool, true, false, ◌||◌, Option, none, some, List, [], ◌∷◌, ltb,
  if◌then◌else◌, length, get_elem?, take, drop,
}
use jrok_rs.Exec.{Exec, returns, panics, ◌>>=◌}

-- `bytes[i]`
unfoldable pub index : List ℕ → ℕ → Exec ℕ
index bytes i = elim (get_elem? bytes i) [ none ↦ panics | some b ↦ returns b ]

-- `&bytes[from..to]`
unfoldable pub slice : List ℕ → ℕ → ℕ → Exec (List ℕ)
slice bytes from to =
    if ltb to from || ltb (length bytes) to
    then panics
    else returns (take (to - from) (drop from bytes))

-- `u16::from_be_bytes([bytes[i], bytes[i + 1]])`
unfoldable pub be16 : List ℕ → ℕ → Exec ℕ
unfolding index
be16 bytes i = do hi ← index bytes i; lo ← index bytes (i + 1); returns (hi * 256 + lo)

-- `u32::from_be_bytes([bytes[i], .., bytes[i + 3]])`
unfoldable pub be32 : List ℕ → ℕ → Exec ℕ
unfolding be16
be32 bytes i = do hi ← be16 bytes i; lo ← be16 bytes (i + 2); returns (hi * 65536 + lo)

-- `n.to_be_bytes()` of a u16 and of a u32.
abbrev pub to_be16 : ℕ → List ℕ
to_be16 n = n / 256 % 256 ∷ n % 256 ∷ []

abbrev pub to_be32 : ℕ → List ℕ
to_be32 n = n / 16777216 % 256 ∷ n / 65536 % 256 ∷ n / 256 % 256 ∷ n % 256 ∷ []

-- `(n + 3) & !3`: the two low bits of n + 3 are cleared.
unfoldable pub align4 : ℕ → ℕ
align4 n = n + 3 - (n + 3) % 4
