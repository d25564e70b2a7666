-- ===== src/Tests/Stun.antt =====
-- Instances of the theorems on src/stun/mod.rs, and runs of its text forms.
use Prim.Native.Nat.{bit_xor}
use jrok_rs.Base.{◌+◌, ◌*◌, ◌≡◌, ◌≢◌, refl, [], ◌∷◌, arith}
use jrok_rs.Error.{ok, err, internal}
use jrok_rs.Exec.{Ends, returns, ◌>>=◌}
use jrok_rs.Base.Text.{◌+s◌, show_ℕ}
use jrok_rs.Net.{UdpWorld, received, show_ipv4}
use jrok_rs.Stun.Server.{StunServer, from_str}
use jrok_rs.Stun.Server.RoundTrip.{from_str-show_ℕ}
use jrok_rs.Stun.Parse.{PublicEndpoint, parse_stun_response, to_endpoint, nothing_found}
use jrok_rs.Stun.Parse.Safety.{parse_stun_response-Ends}
use jrok_rs.Stun.Parse.Encoding.{encode_attributes, meaning}
use jrok_rs.Stun.Parse.RoundTrip.{encode_response, parse-encode_response}
use jrok_rs.Stun.Parse.Mapped.{
  mapped_address, xor_mapped_address, endpoint, mapped_address-IsAttribute, parse-mapped_address,
  parse-xor_mapped_address,
}
use jrok_rs.Stun.Client.{StunClient, discover_public_endpoint}
use jrok_rs.Stun.Client.Safety.{Discovers, discover_public_endpoint-Discovers}
use jrok_rs.Tests.Fixtures.{
  strokes_syntax, transaction_id, software, software-IsAttribute, software-IsIgnored, mapped_ip,
}

from_str_runs :
    from_str "stun.example.com:3478" ≡ ok (record { addr = "stun.example.com"; port = 3478 })
unfolding from_str
from_str_runs = refl

from_str_overflow : from_str "a:65536" ≡ err (internal "Invalid STUN server port: 65536")
unfolding from_str
from_str_overflow = refl

from_str-show_ℕ_example :
    from_str ("stun.example.com" +s ":" +s show_ℕ 3478)
    ≡ ok (record { addr = "stun.example.com"; port = 3478 })
from_str-show_ℕ_example = from_str-show_ℕ "stun.example.com" 3478 (omega arith)

abbrev server : StunServer
server = record { addr = "stun.example.com"; port = 3478 }

-- A header that promises more bytes than there are.
parse_stun_response-Ends_example : Ends (
    parse_stun_response
      (1 ∷ 1 ∷ 255 ∷ 255 ∷ 0x21 ∷ 0x12 ∷ 0xA4 ∷ 0x42 ∷ 1 ∷ 2 ∷ 3 ∷ 4 ∷ 5 ∷ 6 ∷ 7 ∷ 8 ∷ 9 ∷ 10 ∷ 11
        ∷ 12 ∷ 0 ∷ 1 ∷ 0 ∷ 8 ∷ 0 ∷ 1 ∷ [])
      server
      "0.0.0.0:0")
parse_stun_response-Ends_example =
    parse_stun_response-Ends
      (1 ∷ 1 ∷ 255 ∷ 255 ∷ 0x21 ∷ 0x12 ∷ 0xA4 ∷ 0x42 ∷ 1 ∷ 2 ∷ 3 ∷ 4 ∷ 5 ∷ 6 ∷ 7 ∷ 8 ∷ 9 ∷ 10 ∷ 11
        ∷ 12 ∷ 0 ∷ 1 ∷ 0 ∷ 8 ∷ 0 ∷ 1 ∷ [])
      server "0.0.0.0:0"

parse-encode_response_example :
    parse_stun_response
      (encode_response transaction_id (software ∷ mapped_address mapped_ip 48 57 ∷ []))
      server
      "0.0.0.0:0"
    ≡ (meaning (software ∷ mapped_address mapped_ip 48 57 ∷ []) nothing_found
        >>= to_endpoint server "0.0.0.0:0")
unfolding encode_attributes mapped_address
parse-encode_response_example =
    parse-encode_response transaction_id (software ∷ mapped_address mapped_ip 48 57 ∷ []) server
      "0.0.0.0:0" refl (software-IsAttribute, (mapped_address-IsAttribute mapped_ip 48 57, tt))
      (omega arith)

parse-mapped_address_example :
    parse_stun_response
      (encode_response transaction_id (software ∷ mapped_address mapped_ip 48 57 ∷ software ∷ []))
      server
      "0.0.0.0:0"
    ≡ returns (record {
      public_ip = "203.0.113.9";
      public_port = 12345;
      local_addr = "0.0.0.0:0";
      stun_server = "stun.example.com:3478";
    })
unfolding encode_attributes mapped_address show_ipv4 show_ℕ
parse-mapped_address_example =
    parse-mapped_address transaction_id (software ∷ []) (software ∷ []) server "0.0.0.0:0" mapped_ip
      48 57 refl ((software-IsAttribute, tt), (software-IsIgnored, tt))
      ((software-IsAttribute, tt), (software-IsIgnored, tt)) (omega arith)

parse-xor_mapped_address_example :
    (parse_stun_response
        (encode_response transaction_id
          (software ∷ xor_mapped_address mapped_ip 48 57 ∷ software ∷ []))
        server
        "0.0.0.0:0"
      ≡ returns (endpoint server "0.0.0.0:0" mapped_ip (bit_xor 48 0x21 * 256 + bit_xor 57 0x12)))
    × (bit_xor 48 0x21 * 256 + bit_xor 57 0x12 ≢ 48 * 256 + 57)
unfolding encode_attributes xor_mapped_address
parse-xor_mapped_address_example =
    parse-xor_mapped_address transaction_id (software ∷ []) (software ∷ []) server "0.0.0.0:0"
      mapped_ip 48 57 refl ((software-IsAttribute, tt), (software-IsIgnored, tt))
      ((software-IsAttribute, tt), (software-IsIgnored, tt)) (omega arith) (omega arith)
      (omega arith) (omega arith)

-- A network in which every server answers.
abbrev answering_world : UdpWorld
answering_world = record {
  transaction_id = λ _. transaction_id;
  exchange =
      λ _ _ _. received (encode_response transaction_id (mapped_address mapped_ip 48 57 ∷ []));
}

abbrev client : StunClient
client = record {
  servers = server ∷ record { addr = ",|,|,|,|,|,"; port = 3 } ∷ [];
  timeout_secs = 3;
}

-- The first server is a host name, so the second one answers.
discover_public_endpoint-Discovers_example :
    (endpoint : PublicEndpoint) × (discover_public_endpoint strokes_syntax answering_world client
        "0.0.0.0:0"
      ≡ returns endpoint)
    × Discovers strokes_syntax answering_world "0.0.0.0:0" client.servers endpoint
discover_public_endpoint-Discovers_example =
    discover_public_endpoint-Discovers strokes_syntax answering_world client "0.0.0.0:0"
