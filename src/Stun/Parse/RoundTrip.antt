-- ===== src/Stun/Parse/RoundTrip.antt =====
-- A whole response of a STUN server, encoded as RFC 5389 says, and what the client reads from it.

use jrok_rs.Base.{
  ℕ, suc, ◌+◌, ◌*◌, ◌≤◌, ◌<◌, ◌≡◌, refl, sym, ap, ◌∙◌, List, [], ◌++◌, arith, length, String,
  length-append, le→ltb_false,
}
use jrok_rs.Bytes.{be16, be32, to_be16, to_be32}
use jrok_rs.Bytes.Laws.{be16_lem}
use jrok_rs.Exec.{returns, ◌>>=◌}
use jrok_rs.Stun.Server.{StunServer}
use jrok_rs.Stun.Parse.{
  parse_attributes, to_endpoint, parse_stun_response, nothing_found, stun_binding_response,
  stun_magic_cookie,
}
use jrok_rs.Stun.Parse.Encoding.{
  Attribute, AllAttributes, encode_attributes, meaning, parse_attributes-encode, be16-behind,
}

-- A binding response with the given transaction id and attributes.
unfoldable pub encode_response : List ℕ → List Attribute → List ℕ
encode_response transaction_id attributes =
    to_be16 stun_binding_response
    ++ to_be16 (length (encode_attributes attributes))
    ++ to_be32 stun_magic_cookie
    ++ (transaction_id ++ encode_attributes attributes)

pub be32_lem :
    (bytes : List ℕ) (i : ℕ) {hi lo : ℕ}
    → be16 bytes i ≡ returns hi
    → be16 bytes (i + 2) ≡ returns lo
    → be32 bytes i ≡ returns (hi * 65536 + lo)
unfolding be32
be32_lem bytes i p q = rw (p, q) refl

-- With a good header the parser comes to its loop.
parse_stun_response_step :
    (response : List ℕ) (server : StunServer) (local_addr : String) (msg_len : ℕ)
    → 20 ≤ length response
    → be16 response 0 ≡ returns stun_binding_response
    → be16 response 2 ≡ returns msg_len
    → be32 response 4 ≡ returns stun_magic_cookie
    → parse_stun_response response server local_addr ≡ (
        parse_attributes (suc (length response)) response (20 + msg_len) 20 nothing_found
        >>= to_endpoint server local_addr)
unfolding parse_stun_response
parse_stun_response_step response server local_addr msg_len long kind len cookie =
    rw (le→ltb_false (length response) 20 long, kind, len, cookie) refl

-- The parser takes a well-formed binding response apart into its attributes, whatever its
-- transaction id, and returns the endpoint that they mean.
pub parse-encode_response :
    (transaction_id : List ℕ) (attributes : List Attribute) (server : StunServer)
    (local_addr : String)
    → length transaction_id ≡ 12
    → AllAttributes attributes
    → length (encode_attributes attributes) < 65536
    → parse_stun_response (encode_response transaction_id attributes) server local_addr
      ≡ (meaning attributes nothing_found >>= to_endpoint server local_addr)
unfolding encode_response
parse-encode_response transaction_id attributes server local_addr t v h =
    parse_stun_response_step response server local_addr (length body) long kind len cookie
    ∙ ap (λ m. m >>= to_endpoint server local_addr) loop
  where
    body : List ℕ
    body = encode_attributes attributes

    pre : List ℕ
    pre =
        to_be16 stun_binding_response
        ++ to_be16 (length body)
        ++ to_be32 stun_magic_cookie
        ++ transaction_id

    response : List ℕ
    response = pre ++ body

    long : 20 ≤ length response
    long = omega (arith, t, length-append transaction_id body)

    kind : be16 response 0 ≡ returns 0x0101
    kind = be16_lem response 0 refl refl

    len : be16 response 2 ≡ returns (length body)
    len = be16-behind [] response 2 2 (length body) h (omega arith) refl refl

    cookie : be32 response 4 ≡ returns stun_magic_cookie
    cookie = be32_lem response 4 (be16_lem response 4 refl refl) (be16_lem response 6 refl refl)

    pre_length : length pre ≡ 20
    pre_length = omega (arith, t)

    loop :
        parse_attributes (suc (length response)) response (20 + length body) 20 nothing_found
        ≡ meaning attributes nothing_found
    loop =
        (λ i.
          parse_attributes (suc (length response)) response (20 + length body) (sym pre_length i)
            nothing_found)
        ∙ parse_attributes-encode attributes (suc (length response)) pre (20 + length body)
            nothing_found v (omega (arith, pre_length))
            (omega (arith, length-append transaction_id body))
