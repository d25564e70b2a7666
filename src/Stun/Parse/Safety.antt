-- ===== src/Stun/Parse/Safety.antt =====
-- The parser neither panics nor runs out of fuel, whatever the bytes.
use jrok_rs.Base.{ℕ, zero, suc, ◌+◌, ◌≤◌, ◌<◌, List, arith, ltb, not, length, ◌==◌, String}
use jrok_rs.Bytes.{index, be16, be32, align4, to_be32}
use jrok_rs.Bytes.Laws.{index_in_bounds, be16_in_bounds, slice_in_bounds, le-align4}
use jrok_rs.Exec.{Ends}
use jrok_rs.Exec.Laws.{>>=-Ends, if-Ends}
use jrok_rs.Stun.Server.{StunServer}
use jrok_rs.Stun.Parse.{
  Found, read_ip, read_plain_ip, parse_mapped_address, on_attribute, parse_attributes, to_endpoint,
  parse_stun_response, nothing_found, stun_magic_cookie, stun_binding_response,
}

index-Ends : (bytes : List ℕ) (i : ℕ) → i < length bytes → Ends (index bytes i)
index-Ends bytes i h = rw ((index_in_bounds bytes i h).1) tt

be16-Ends : (bytes : List ℕ) (i : ℕ) → i + 2 ≤ length bytes → Ends (be16 bytes i)
be16-Ends bytes i h = rw ((be16_in_bounds bytes i h).1) tt

read_ip-Ends :
    (value : List ℕ) → 8 ≤ length value → Ends (read_ip value (to_be32 stun_magic_cookie))
unfolding read_ip
read_ip-Ends value h = ground (
  arith,
  index_in_bounds value 4,
  index_in_bounds value 5,
  index_in_bounds value 6,
  index_in_bounds value 7,
)

read_plain_ip-Ends : (value : List ℕ) → 8 ≤ length value → Ends (read_plain_ip value)
unfolding read_plain_ip
read_plain_ip-Ends value h = ground (
  arith,
  index_in_bounds value 4,
  index_in_bounds value 5,
  index_in_bounds value 6,
  index_in_bounds value 7,
)

parse_mapped_address-Ends :
    (value : List ℕ) (attr_type : ℕ) → Ends (parse_mapped_address value attr_type)
unfolding parse_mapped_address
parse_mapped_address-Ends value attr_type = ground (
  arith,
  index_in_bounds value 1,
  be16_in_bounds value 2,
  read_ip-Ends value,
  read_plain_ip-Ends value,
)

on_attribute-Ends :
    (attr_type : ℕ) (value : List ℕ) (found : Found) → Ends (on_attribute attr_type value found)
unfolding on_attribute
on_attribute-Ends attr_type value found = ground (arith, parse_mapped_address-Ends value attr_type)

-- Each round moves on by four bytes at least, and stays within the response.
parse_attributes-Ends :
    (fuel : ℕ) (response : List ℕ) (stop pos : ℕ) (found : Found)
    → pos ≤ length response
    → length response < fuel + pos
    → Ends (parse_attributes fuel response stop pos found)
unfolding parse_attributes
parse_attributes-Ends zero response stop pos found b h = absurd (omega arith)
parse_attributes-Ends (suc fuel) response stop pos found b h =
    if-Ends (not (ltb pos stop)) _ _ (λ _. tt)
      λ _.
        if-Ends (ltb (length response) (pos + 4)) _ _ (λ _. tt)
          λ room.
            >>=-Ends (be16 response pos) _ (be16-Ends response pos (ground arith)) λ attr_type _.
              >>=-Ends (be16 response (pos + 2)) _ (be16-Ends response (pos + 2) (ground arith))
                λ attr_len _.
                  if-Ends (ltb (length response) (pos + 4 + align4 attr_len)) _ _ (λ _. tt)
                    λ fits.
                      let fits' : pos + 4 + align4 attr_len ≤ length response = ground arith in
                      rw
                        (slice_in_bounds response (pos + 4) (pos + 4 + attr_len) (omega arith)
                          (omega (arith, le-align4 attr_len)))
                        (>>=-Ends (on_attribute attr_type _ found) _
                          (on_attribute-Ends attr_type _ found)
                          λ found' _.
                            parse_attributes-Ends fuel response stop (pos + 4 + align4 attr_len)
                              found' fits' (omega arith))

to_endpoint-Ends :
    (server : StunServer) (local_addr : String) (found : Found)
    → Ends (to_endpoint server local_addr found)
unfolding to_endpoint
to_endpoint-Ends server local_addr found = ground arith

be32-Ends : (bytes : List ℕ) (i : ℕ) → i + 4 ≤ length bytes → Ends (be32 bytes i)
unfolding be32
be32-Ends bytes i h =
    >>=-Ends (be16 bytes i) _ (be16-Ends bytes i (omega arith))
      λ hi _. >>=-Ends (be16 bytes (i + 2)) _ (be16-Ends bytes (i + 2) (omega arith)) λ lo _. tt

-- For every list of bytes the parser ends with an endpoint or an error: no index or slice is out of
-- bounds, and the attribute loop stops within its fuel.
pub parse_stun_response-Ends :
    (response : List ℕ) (server : StunServer) (local_addr : String)
    → Ends (parse_stun_response response server local_addr)
unfolding parse_stun_response
parse_stun_response-Ends response server local_addr =
    if-Ends (ltb (length response) 20) _ _ (λ _. tt)
      λ long.
        let long' : 20 ≤ length response = ground arith in
        >>=-Ends (be16 response 0) _ (be16-Ends response 0 (omega arith)) λ msg_type _.
          >>=-Ends (be16 response 2) _ (be16-Ends response 2 (omega arith)) λ msg_len _.
            >>=-Ends (be32 response 4) _ (be32-Ends response 4 (omega arith)) λ magic_cookie _.
              if-Ends (not (magic_cookie == stun_magic_cookie)) _ _ (λ _. tt)
                λ _.
                  if-Ends (not (msg_type == stun_binding_response)) _ _ (λ _. tt)
                    λ _. rw (slice_in_bounds response 8 20 (omega arith) long') (
                      >>=-Ends
                        (parse_attributes (suc (length response)) response (20 + msg_len) 20
                          nothing_found)
                        _
                        (parse_attributes-Ends (suc (length response)) response (20 + msg_len) 20
                          nothing_found long' (omega arith))
                        λ found _. to_endpoint-Ends server local_addr found)
