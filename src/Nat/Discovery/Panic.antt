-- ===== src/Nat/Discovery/Panic.antt =====
-- The response parser of NatDetector on responses that a STUN server sends.
use jrok_rs.Base.{
  ℕ, suc, ◌+◌, ◌-◌, ◌*◌, ◌/◌, ◌%◌, ◌≡◌, refl, ap, ◌∙◌, List, [], ◌∷◌, ◌++◌, String, arith, length,
  some, take,
}
use jrok_rs.Base.Text.{◌+s◌, show_ℕ}
use jrok_rs.Bytes.{be16, align4}
use jrok_rs.Bytes.Laws.{be16_lem, slice_in_bounds, get_elem?-append, drop-append}
use jrok_rs.Exec.{returns, panics}
use jrok_rs.Net.{Ipv4Addr}
use jrok_rs.Stun.Parse.Encoding.{
  Attribute, IsAttribute, AllAttributes, encode_attributes, whole, read_kind, read_length,
  length-whole, header,
}
use jrok_rs.Stun.Parse.RoundTrip.{encode_response}
use jrok_rs.Stun.Parse.Mapped.{mapped_address, mapped_address-IsAttribute}
use jrok_rs.Nat.Discovery.{read_mapping, scan_attributes, to_discovered, parse_stun_response}
use jrok_rs.Nat.Discovery.Scan.{
  AllOther, scan_attributes_step, read_mapping_out, read_mapping_lem, scan_past, parse-encode,
}

module _ (ip : Ipv4Addr) (hi lo : ℕ) where
  abbrev mapped : Attribute
  mapped = mapped_address ip hi lo

  v : IsAttribute mapped
  v = mapped_address-IsAttribute ip hi lo

  module _ (fuel : ℕ) (pre tail : List ℕ) where
    -- The round that meets the address attribute reads a mapping behind its header.
    scan_mapped :
        scan_attributes (suc fuel) (whole pre mapped tail v) (length pre)
        ≡ read_mapping (whole pre mapped tail v) (length pre + 4)
    unfolding mapped_address
    scan_mapped =
        scan_attributes_step fuel (whole pre mapped tail v) (length pre) 1 8
          (omega (arith, length-whole pre mapped tail v)) (read_kind pre mapped tail v)
          (read_length pre mapped tail v)

    -- The two bytes taken for the port are the second byte of the port and the first octet.
    misread_port : be16 (whole pre mapped tail v) (length pre + 4 + 3) ≡ returns (lo * 256 + ip.a)
    unfolding mapped_address
    misread_port =
        be16_lem (whole pre mapped tail v) (length pre + 4 + 3)
          (get_elem?-append pre _ (length pre + 4 + 3) 7 (omega arith))
          (get_elem?-append pre _ (length pre + 4 + 3 + 1) 8 (omega arith))

  -- If the attribute is the last, one byte is missing for the slice.
  scan_last :
      (fuel : ℕ) (pre : List ℕ)
      → scan_attributes (suc fuel) (pre ++ encode_attributes (mapped ∷ [])) (length pre) ≡ panics
  unfolding encode_attributes align4 mapped_address
  scan_last fuel pre =
      scan_mapped fuel pre []
      ∙ read_mapping_out (whole pre mapped [] v) (length pre + 4) (misread_port fuel pre [])
          (omega (arith, length-whole pre mapped [] v, size))
    where
      size : align4 (length mapped.value) ≡ 8
      size = refl

  -- If another attribute follows, the slice holds the other three octets and one byte more.
  scan_followed :
      (next : Attribute) (after : List Attribute) (fuel : ℕ) (pre : List ℕ)
      → scan_attributes (suc fuel) (pre ++ encode_attributes (mapped ∷ next ∷ after)) (length pre)
        ≡ returns (some (show_ℕ ip.b +s "." +s show_ℕ ip.c +s "." +s show_ℕ ip.d, lo * 256 + ip.a))
  unfolding encode_attributes align4 mapped_address
  scan_followed next after fuel pre =
      scan_mapped fuel pre tail
      ∙ read_mapping_lem (whole pre mapped tail v) (length pre + 4) {b3 = next.kind / 256 % 256}
          (misread_port fuel pre tail)
          (slice_in_bounds (whole pre mapped tail v) (length pre + 4 + 5) (length pre + 4 + 9)
              (omega arith) (omega (arith, length-whole pre mapped tail v))
            ∙ ap returns (
                rw
                  (drop-append pre (header mapped ++ (mapped.value ++ tail)) (length pre + 4 + 5) 9
                    (omega arith))
                  (ap (λ n. take n (ip.b ∷ ip.c ∷ ip.d ∷ tail)) (four (length pre)))))
    where
      tail : List ℕ
      tail = encode_attributes (next ∷ after)

      four : (n : ℕ) → n + 4 + 9 - (n + 4 + 5) ≡ 4
      four n = omega arith

module _ (transaction_id : List ℕ) (before : List Attribute) (ip : Ipv4Addr) (hi lo : ℕ)
    (stun_server : String) (t : length transaction_id ≡ 12) (v : AllAttributes before)
    (o : AllOther before) where
  -- On a well-formed response whose last attribute is a MAPPED-ADDRESS of an IPv4 address, the only
  -- one of its kind, the parser of NatDetector panics.
  pub parse-mapped_address_last :
      parse_stun_response
        (encode_response transaction_id (before ++ mapped_address ip hi lo ∷ []))
        stun_server
      ≡ panics
  parse-mapped_address_last =
      parse-encode transaction_id (before ++ mapped_address ip hi lo ∷ []) stun_server t panics
        λ fuel pre h.
          scan_past panics (mapped_address ip hi lo ∷ []) (scan_last ip hi lo) before fuel pre v o h

  -- If some attribute follows it, the parser returns three of the four octets of the address, and a
  -- port made of the low byte of the port and the first octet.
  parse-mapped_address_followed :
      (next : Attribute) (after : List Attribute)
      → parse_stun_response
          (encode_response transaction_id (before ++ mapped_address ip hi lo ∷ next ∷ after))
          stun_server
        ≡ returns (record {
          public_ip = show_ℕ ip.b +s "." +s show_ℕ ip.c +s "." +s show_ℕ ip.d;
          public_port = lo * 256 + ip.a;
          stun_server = stun_server;
        })
  unfolding to_discovered
  parse-mapped_address_followed next after =
      parse-encode transaction_id (before ++ mapped_address ip hi lo ∷ next ∷ after) stun_server t _
        λ fuel pre h.
          scan_past _ (mapped_address ip hi lo ∷ next ∷ after) (scan_followed ip hi lo next after)
            before fuel pre v o h
