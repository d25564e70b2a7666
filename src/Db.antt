-- ===== src/Db.antt =====
-- src/db/models.rs: the protocol of a tunnel. The tables are not part of this file.
pub mod Statement
pub mod Agents
pub mod Servers
pub mod Ports
pub mod Tunnels
pub mod Keys
use Prim.Native.Char.{code}
use jrok_rs.Base.{
  ℕ, ◌+◌, ◌&&◌, ◌≡◌, refl, Bool, true, false, String, List, [], ◌∷◌, leb, ◌==◌, if◌then◌else◌,
}

pub data Protocol : Type 0 where
  http tcp : Protocol

-- `Protocol::default`
abbrev pub default_protocol : Protocol
default_protocol = http

-- `Protocol::to_string`
unfoldable pub show_protocol : Protocol → String
show_protocol http = "http"
show_protocol tcp = "tcp"

-- The lower-case code point of an ASCII letter. No other character has t, c or p as lower case.
to_lower : ℕ → ℕ
to_lower c = if leb b'A' c && leb c b'Z' then c + 32 else c

lower_codes : String → List ℕ
unfolding to_lower
lower_codes String.[] = []
lower_codes (String.◌∷◌ c s) = to_lower (code c) ∷ lower_codes s

same_codes : List ℕ → List ℕ → Bool
same_codes [] [] = true
same_codes (a ∷ xs) (b ∷ ys) = a == b && same_codes xs ys
same_codes _ _ = false

-- `Protocol::from(&str)`
unfoldable pub protocol_of : String → Protocol
unfolding lower_codes same_codes
protocol_of s = if same_codes (lower_codes s) (lower_codes "tcp") then tcp else http

protocol_of_runs : protocol_of "Tcp" ≡ tcp
unfolding protocol_of
protocol_of_runs = refl
