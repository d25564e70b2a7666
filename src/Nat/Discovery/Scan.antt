-- ===== src/Nat/Discovery/Scan.antt =====
-- The attribute loop of NatDetector's response parser on an encoded response.
use jrok_rs.Base.{
  ℕ, zero, suc, ◌+◌, ◌≤◌, ◌<◌, ◌≡◌, ◌≢◌, refl, sym, ap, ◌∙◌, List, [], ◌∷◌, ◌++◌, String, arith,
  leb, ◌==◌, ◌&&◌, false, length, length-append, le→ltb_false, lt→ltb, some, if◌then◌else◌,
}
use jrok_rs.Base.Text.{◌+s◌, show_ℕ}
use jrok_rs.Bytes.{be16, be32, align4, slice, to_be16, to_be32}
use jrok_rs.Bytes.Laws.{be16_lem, be16_in_bounds}
use jrok_rs.Exec.{Exec, returns, panics, ◌>>=◌}
use jrok_rs.Stun.Parse.Encoding.{
  Attribute, AllAttributes, encode_attributes, whole, read_kind, read_length, length-whole,
  next_prefix, regroup, length-next_prefix,
}
use jrok_rs.Stun.Parse.RoundTrip.{encode_response, be32_lem}
use jrok_rs.Stun.Parse.{stun_binding_response, stun_magic_cookie}
use jrok_rs.Nat.Discovery.{
  Mapping, read_mapping, scan_attributes, to_discovered, parse_stun_response,
}

-- No attribute is a MAPPED-ADDRESS.
abbrev pub AllOther : List Attribute → Type 0
AllOther [] = Unit {0}
AllOther (a ∷ rest) = (a.kind ≢ 0x0001) × AllOther rest

-- One round of the loop.
pub scan_attributes_step :
    (fuel : ℕ) (response : List ℕ) (i kind len : ℕ)
    → i + 4 < length response + 1
    → be16 response i ≡ returns kind
    → be16 response (i + 2) ≡ returns len
    → scan_attributes (suc fuel) response i ≡ (
        if kind == 0x0001 && leb 8 len
        then read_mapping response (i + 4)
        else scan_attributes fuel response (i + 4 + align4 len))
unfolding scan_attributes
scan_attributes_step fuel response i kind len room k l =
    rw
      (
        lt→ltb i (length response) (omega arith),
        le→ltb_false (length response) (i + 4) (omega arith),
        k,
        l,
      )
      refl

module _ (result : Exec Mapping) (last : List Attribute)
    (base : (fuel : ℕ) (pre : List ℕ)
      → scan_attributes (suc fuel) (pre ++ encode_attributes last) (length pre) ≡ result) where
  -- The loop passes over the attributes of other kinds.
  pub scan_past :
      (before : List Attribute) (fuel : ℕ) (pre : List ℕ)
      → AllAttributes before
      → AllOther before
      → length (encode_attributes (before ++ last)) < fuel
      → scan_attributes fuel (pre ++ encode_attributes (before ++ last)) (length pre) ≡ result
  unfolding encode_attributes
  scan_past before zero pre v o h = absurd (omega arith)
  scan_past [] (suc fuel) pre v o h = base fuel pre
  scan_past (a ∷ before) (suc fuel) pre v o h =
      scan_attributes_step fuel (whole pre a tail v.0) (length pre) a.kind (length a.value)
        (omega (arith, size)) (read_kind pre a tail v.0) (read_length pre a tail v.0)
      ∙ rw other (
          (λ i.
            scan_attributes fuel (regroup pre a tail v.0 i)
              (sym (length-next_prefix pre a tail v.0) i))
          ∙ scan_past before fuel (next_prefix pre a tail v.0) v.1 o.1
              (omega (arith, size, h, length-append pre (encode_attributes (a ∷ before ++ last)))))
    where
      tail : List ℕ
      tail = encode_attributes (before ++ last)

      size : length (whole pre a tail v.0) ≡ length pre + 4 + align4 (length a.value) + length tail
      size = length-whole pre a tail v.0

      other : (a.kind == 0x0001) ≡ false
      other = ground (arith, o.0)

parse_stun_response_step :
    (response : List ℕ) (stun_server : String) (kind len : ℕ)
    → 20 ≤ length response
    → be16 response 0 ≡ returns kind
    → be16 response 2 ≡ returns len
    → be32 response 4 ≡ returns 0x2112A442
    → parse_stun_response response stun_server
      ≡ (scan_attributes (suc (length response)) response 20 >>= to_discovered stun_server)
unfolding parse_stun_response
parse_stun_response_step response stun_server kind len long k l cookie =
    rw (le→ltb_false (length response) 20 long, k, l, cookie) refl

module _ (transaction_id : List ℕ) (attributes : List Attribute) (stun_server : String)
    (t : length transaction_id ≡ 12) where
  -- With a good header the parser comes to its loop, for any attributes.
  pub parse-encode :
      (result : Exec Mapping)
      → ((fuel : ℕ) (pre : List ℕ)
          → length (encode_attributes attributes) < fuel
          → scan_attributes fuel (pre ++ encode_attributes attributes) (length pre) ≡ result)
      → parse_stun_response (encode_response transaction_id attributes) stun_server
        ≡ (result >>= to_discovered stun_server)
  unfolding encode_response
  parse-encode result h =
      parse_stun_response_step response stun_server 0x0101 len.0 long
        (be16_lem response 0 refl refl) len.1
        (be32_lem response 4 (be16_lem response 4 refl refl) (be16_lem response 6 refl refl))
      ∙ ap (λ m. m >>= to_discovered stun_server)
          ((λ i. scan_attributes (suc (length response)) response (sym pre_length i))
            ∙ h (suc (length response)) pre (omega (arith, length-append transaction_id body)))
    where
      body : List ℕ
      body = encode_attributes attributes

      pre : List ℕ
      pre =
          to_be16 stun_binding_response
          ++ to_be16 (length body)
          ++ to_be32 stun_magic_cookie
          ++ transaction_id

      pre_length : length pre ≡ 20
      pre_length = omega (arith, t)

      response : List ℕ
      response = pre ++ body

      long : 20 ≤ length response
      long = omega (arith, t, length-append transaction_id body)

      len : (n : ℕ) × (be16 response 2 ≡ returns n)
      len = be16_in_bounds response 2 (omega (arith, long))

pub read_mapping_out :
    (response : List ℕ) (i : ℕ) {port : ℕ}
    → be16 response (i + 3) ≡ returns port
    → length response < i + 9
    → read_mapping response i ≡ panics
unfolding read_mapping
read_mapping_out response i p h = rw (p, lt→ltb (length response) (i + 9) h) (ground arith)

pub read_mapping_lem :
    (response : List ℕ) (i : ℕ) {port b0 b1 b2 b3 : ℕ}
    → be16 response (i + 3) ≡ returns port
    → slice response (i + 5) (i + 9) ≡ returns (b0 ∷ b1 ∷ b2 ∷ b3 ∷ [])
    → read_mapping response i
      ≡ returns (some (show_ℕ b0 +s "." +s show_ℕ b1 +s "." +s show_ℕ b2, port))
unfolding read_mapping
read_mapping_lem response i p q = rw (p, q) refl
