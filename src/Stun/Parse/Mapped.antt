-- ===== src/Stun/Parse/Mapped.antt =====
-- The two address attributes, encoded as RFC 5389 says, and what the client reads from them.
use Prim.Native.Nat.{bit_xor}
use jrok_rs.Base.{
  ℕ, ◌+◌, ◌*◌, ◌<◌, ◌≡◌, ◌≢◌, refl, ◌∙◌, List, [], ◌∷◌, ◌++◌, arith, length, String, some,
}
use jrok_rs.Base.Text.{◌+s◌, show_ℕ}
use jrok_rs.Bytes.{align4}
use jrok_rs.Exec.{returns}
use jrok_rs.Net.{Ipv4Addr, IsOctets, show_ipv4}
use jrok_rs.Stun.Server.{StunServer}
use jrok_rs.Stun.Parse.{
  Found, PublicEndpoint, on_attribute, to_endpoint, parse_stun_response, nothing_found,
  stun_attr_mapped_address, stun_attr_xor_mapped_address, stun_attr_error_code,
}
use jrok_rs.Stun.Parse.Encoding.{Attribute, IsAttribute, AllAttributes, encode_attributes, meaning}
use jrok_rs.Stun.Parse.Cookie.{xor_twice, cookie-Toggles, xor_port-ne}
use jrok_rs.Stun.Parse.RoundTrip.{encode_response, parse-encode_response}

-- An attribute that the client passes over.
pub record IsIgnored (a : Attribute) : Type 0 where
  pub not_mapped : a.kind ≢ stun_attr_mapped_address
  pub not_xor_mapped : a.kind ≢ stun_attr_xor_mapped_address
  pub not_error : a.kind ≢ stun_attr_error_code

abbrev pub AllIgnored : List Attribute → Type 0
AllIgnored [] = Unit {0}
AllIgnored (a ∷ rest) = IsIgnored a × AllIgnored rest

on_attribute_ignored :
    (a : Attribute) (found : Found)
    → IsIgnored a
    → on_attribute a.kind a.value found ≡ returns found
unfolding on_attribute
on_attribute_ignored a found v = ground arith

meaning-ignored_append :
    (before rest : List Attribute) (found : Found)
    → AllIgnored before
    → meaning (before ++ rest) found ≡ meaning rest found
unfolding meaning
meaning-ignored_append [] rest found v = refl
meaning-ignored_append (a ∷ before) rest found v =
    rw (on_attribute_ignored a found v.0) (meaning-ignored_append before rest found v.1)

meaning-ignored :
    (after : List Attribute) (found : Found)
    → AllIgnored after
    → meaning after found ≡ returns found
unfolding meaning
meaning-ignored [] found v = refl
meaning-ignored (a ∷ after) found v =
    rw (on_attribute_ignored a found v.0) (meaning-ignored after found v.1)

-- The value of MAPPED-ADDRESS for an IPv4 address and the two bytes of a port.
unfoldable pub mapped_address : Ipv4Addr → ℕ → ℕ → Attribute
mapped_address ip hi lo = record {
  kind = stun_attr_mapped_address;
  value = 0 ∷ 1 ∷ hi ∷ lo ∷ ip.a ∷ ip.b ∷ ip.c ∷ ip.d ∷ [];
  padding = [];
}

-- The value of XOR-MAPPED-ADDRESS: the port is masked with the first two bytes of the magic cookie,
-- the address with all four.
unfoldable pub xor_mapped_address : Ipv4Addr → ℕ → ℕ → Attribute
xor_mapped_address ip hi lo = record {
  kind = stun_attr_xor_mapped_address;
  value =
      0
      ∷ 1
      ∷ bit_xor hi 0x21
      ∷ bit_xor lo 0x12
      ∷ bit_xor ip.a 0x21
      ∷ bit_xor ip.b 0x12
      ∷ bit_xor ip.c 0xA4
      ∷ bit_xor ip.d 0x42
      ∷ [];
  padding = [];
}

abbrev found_at : Ipv4Addr → ℕ → Found
found_at ip port = record { public_ip = some (show_ipv4 ip); public_port = some port }

on_mapped_address :
    (ip : Ipv4Addr) (hi lo : ℕ) (found : Found)
    → on_attribute (mapped_address ip hi lo).kind (mapped_address ip hi lo).value found
      ≡ returns (found_at ip (hi * 256 + lo))
unfolding on_attribute mapped_address
on_mapped_address ip hi lo found = refl

on_xor_mapped_address :
    (ip : Ipv4Addr) (hi lo : ℕ) (found : Found)
    → IsOctets ip
    → on_attribute (xor_mapped_address ip hi lo).kind (xor_mapped_address ip hi lo).value found
      ≡ returns (found_at ip (bit_xor hi 0x21 * 256 + bit_xor lo 0x12))
unfolding on_attribute xor_mapped_address
on_xor_mapped_address ip hi lo found h =
    rw
      (
        xor_twice ip.a 0x21 cookie-Toggles.0 h.0,
        xor_twice ip.b 0x12 cookie-Toggles.1 h.1,
        xor_twice ip.c 0xA4 cookie-Toggles.2 h.2,
        xor_twice ip.d 0x42 cookie-Toggles.3 h.3,
      )
      refl

pub mapped_address-IsAttribute : (ip : Ipv4Addr) (hi lo : ℕ) → IsAttribute (mapped_address ip hi lo)
unfolding mapped_address align4
mapped_address-IsAttribute ip hi lo = omega arith

xor_mapped_address-IsAttribute :
    (ip : Ipv4Addr) (hi lo : ℕ) → IsAttribute (xor_mapped_address ip hi lo)
unfolding xor_mapped_address align4
xor_mapped_address-IsAttribute ip hi lo = omega arith

AllAttributes-append :
    (before rest : List Attribute)
    → AllAttributes before
    → AllAttributes rest
    → AllAttributes (before ++ rest)
AllAttributes-append [] rest v w = w
AllAttributes-append (a ∷ before) rest v w = (v.0, AllAttributes-append before rest v.1 w)

-- The endpoint that the client reports.
abbrev pub endpoint : StunServer → String → Ipv4Addr → ℕ → PublicEndpoint
endpoint server local_addr ip port = record {
  public_ip = show_ipv4 ip;
  public_port = port;
  local_addr = local_addr;
  stun_server = server.addr +s ":" +s show_ℕ server.port;
}

module _ (transaction_id : List ℕ) (before after : List Attribute) (server : StunServer)
    (local_addr : String) (ip : Ipv4Addr) (hi lo : ℕ) (t : length transaction_id ≡ 12)
    (b : AllAttributes before × AllIgnored before)
    (c : AllAttributes after × AllIgnored after) where
  -- A response whose attributes are one address attribute among others that the client ignores.
  read_among :
      (a : Attribute) (port : ℕ)
      → IsAttribute a
      → ((found : Found) → on_attribute a.kind a.value found ≡ returns (found_at ip port))
      → length (encode_attributes (before ++ a ∷ after)) < 65536
      → parse_stun_response (encode_response transaction_id (before ++ a ∷ after)) server local_addr
        ≡ returns (endpoint server local_addr ip port)
  unfolding meaning to_endpoint
  read_among a port v reads fits =
      parse-encode_response transaction_id (before ++ a ∷ after) server local_addr t
        (AllAttributes-append before (a ∷ after) b.0 (v, c.0)) fits
      ∙ rw
          (
            meaning-ignored_append before (a ∷ after) nothing_found b.1,
            reads nothing_found,
            meaning-ignored after (found_at ip port) c.1,
          )
          refl

  -- From a binding response with a MAPPED-ADDRESS among attributes that the client ignores, it
  -- reads back the IPv4 address and the port that the server encoded.
  pub parse-mapped_address :
      length (encode_attributes (before ++ mapped_address ip hi lo ∷ after)) < 65536
      → parse_stun_response
          (encode_response transaction_id (before ++ mapped_address ip hi lo ∷ after))
          server
          local_addr
        ≡ returns (endpoint server local_addr ip (hi * 256 + lo))
  parse-mapped_address =
      read_among (mapped_address ip hi lo) (hi * 256 + lo) (mapped_address-IsAttribute ip hi lo)
        (on_mapped_address ip hi lo)

  -- From a response with an XOR-MAPPED-ADDRESS among attributes that the client ignores, it reads
  -- back the address of the server; the port that it reports is still masked with the magic cookie,
  -- and so differs from the port of the server, whatever that is.
  pub parse-xor_mapped_address :
      IsOctets ip
      → hi < 256
      → lo < 256
      → length (encode_attributes (before ++ xor_mapped_address ip hi lo ∷ after)) < 65536
      → let port = bit_xor hi 0x21 * 256 + bit_xor lo 0x12 in
        (parse_stun_response
            (encode_response transaction_id (before ++ xor_mapped_address ip hi lo ∷ after))
            server
            local_addr
          ≡ returns (endpoint server local_addr ip port))
        × (port ≢ hi * 256 + lo)
  parse-xor_mapped_address h p q fits = (
    read_among (xor_mapped_address ip hi lo) (bit_xor hi 0x21 * 256 + bit_xor lo 0x12)
        (xor_mapped_address-IsAttribute ip hi lo) (λ found. on_xor_mapped_address ip hi lo found h)
        fits,
    xor_port-ne hi lo p q,
  )
