-- ===== src/Stun/Parse.antt =====
-- src/stun/mod.rs: `parse_stun_response` and `parse_mapped_address`.
pub mod Safety
pub mod Encoding
pub mod RoundTrip
pub mod Cookie
pub mod Mapped
use Prim.Native.Nat.{bit_xor}
use jrok_rs.Base.{
  ℕ, zero, suc, ◌+◌, Bool, true, false, ◌||◌, Option, none, some, String, List, ltb, ◌==◌, not,
  if◌then◌else◌, length,
}
use jrok_rs.Base.Text.{◌+s◌, show_ℕ, show_hex4}
use jrok_rs.Bytes.{index, slice, be16, be32, align4, to_be32}
use jrok_rs.Error.{internal}
use jrok_rs.Exec.{Exec, returns, fails, panics, out_of_fuel, ◌>>=◌}
use jrok_rs.Net.{Ipv4Addr, show_ipv4}
use jrok_rs.Stun.Server.{StunServer}

abbrev pub stun_binding_request : ℕ
stun_binding_request = 0x0001

abbrev pub stun_binding_response : ℕ
stun_binding_response = 0x0101

abbrev pub stun_magic_cookie : ℕ
stun_magic_cookie = 0x2112A442

abbrev pub stun_attr_mapped_address : ℕ
stun_attr_mapped_address = 0x0001

abbrev pub stun_attr_xor_mapped_address : ℕ
stun_attr_xor_mapped_address = 0x0020

abbrev pub stun_attr_error_code : ℕ
stun_attr_error_code = 0x0009

pub record PublicEndpoint : Type 0 where
  pub public_ip : String
  pub public_port : ℕ
  pub local_addr : String
  pub stun_server : String

-- The four bytes of an address from offset 4 on, each xor-ed with the byte of `mask` beside it.
read_ip : List ℕ → List ℕ → Exec Ipv4Addr
unfolding index
read_ip value mask = do
  a ← index value 4
  b ← index value 5
  c ← index value 6
  d ← index value 7
  m0 ← index mask 0
  m1 ← index mask 1
  m2 ← index mask 2
  m3 ← index mask 3
  returns (record { a = bit_xor a m0; b = bit_xor b m1; c = bit_xor c m2; d = bit_xor d m3 })

-- The same four bytes as they stand.
read_plain_ip : List ℕ → Exec Ipv4Addr
unfolding index
read_plain_ip value = do
  a ← index value 4
  b ← index value 5
  c ← index value 6
  d ← index value 7
  returns (record { a = a; b = b; c = c; d = d })

unfoldable pub parse_mapped_address : List ℕ → ℕ → Exec (String × ℕ)
unfolding index be16 read_ip read_plain_ip
parse_mapped_address value attr_type =
    if ltb (length value) 8 then fails (internal "Mapped address too short") else do
      family ← index value 1
      port ← be16 value 2
      ip ←
          (if attr_type == stun_attr_xor_mapped_address
            then read_ip value (to_be32 stun_magic_cookie)
            else read_plain_ip value)
      if not (family == 0x01)
          then fails (internal "Only IPv4 addresses supported")
          else returns (show_ipv4 ip, port)

-- The variables `public_ip` and `public_port` of the loop.
pub record Found : Type 0 where
  pub public_ip : Option String
  pub public_port : Option ℕ

abbrev pub nothing_found : Found
nothing_found = record { public_ip = none; public_port = none }

-- `if let Ok((ip, port)) = …`: an error leaves the variables alone.
abbrev pub note_mapped : Exec (String × ℕ) → Found → Exec Found
note_mapped (returns (ip, port)) found =
    returns (record { public_ip = some ip; public_port = some port })
note_mapped (fails _) found = returns found
note_mapped panics found = panics
note_mapped out_of_fuel found = out_of_fuel

-- The `match attr_type`.
unfoldable pub on_attribute : ℕ → List ℕ → Found → Exec Found
unfolding parse_mapped_address
on_attribute attr_type value found =
    if attr_type == stun_attr_mapped_address || attr_type == stun_attr_xor_mapped_address
    then note_mapped (parse_mapped_address value attr_type) found
    else if attr_type == stun_attr_error_code
    then fails (internal "STUN error code attribute present")
    else returns found

-- The `while pos < 20 + msg_len` loop; `stop` is 20 + msg_len.
unfoldable pub parse_attributes : ℕ → List ℕ → ℕ → ℕ → Found → Exec Found
unfolding be16 slice align4 on_attribute
parse_attributes zero response stop pos found = out_of_fuel
parse_attributes (suc fuel) response stop pos found =
    if not (ltb pos stop)
    then returns found
    else if ltb (length response) (pos + 4)
    then returns found
    else do
      attr_type ← be16 response pos
      attr_len ← be16 response (pos + 2)
      if ltb (length response) (pos + 4 + align4 attr_len) then returns found else do
        value ← slice response (pos + 4) (pos + 4 + attr_len)
        found' ← on_attribute attr_type value found
        parse_attributes fuel response stop (pos + 4 + align4 attr_len) found'

-- The `match (public_ip, public_port)` at the end.
unfoldable pub to_endpoint : StunServer → String → Found → Exec PublicEndpoint
to_endpoint server local_addr found = elim found.public_ip [
  | none ↦ fails (internal "No mapped address in STUN response")
  | some ip ↦ elim found.public_port [
    | none ↦ fails (internal "No mapped address in STUN response")
    | some port ↦ returns (record {
      public_ip = ip;
      public_port = port;
      local_addr = local_addr;
      stun_server = server.addr +s ":" +s show_ℕ server.port;
    })
  ]
]

-- Each round of the loop moves on by four bytes at least, so a fuel of one more than the length of
-- the response is never used up.
unfoldable pub parse_stun_response : List ℕ → StunServer → String → Exec PublicEndpoint
unfolding be16 be32 slice parse_attributes to_endpoint
parse_stun_response response server local_addr =
    if ltb (length response) 20 then fails (internal "STUN response too short") else do
      msg_type ← be16 response 0
      msg_len ← be16 response 2
      magic_cookie ← be32 response 4
      if not (magic_cookie == stun_magic_cookie)
          then fails (internal "Invalid STUN magic cookie")
          else if not (msg_type == stun_binding_response)
          then fails (internal ("Unexpected STUN message type: 0x" +s show_hex4 msg_type))
          else do
            transaction_id ← slice response 8 20
            found ←
                parse_attributes (suc (length response)) response (20 + msg_len) 20 nothing_found
            to_endpoint server local_addr found
