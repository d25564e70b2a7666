-- ===== src/Tests/Nat.antt =====
-- Instances of the theorems on src/nat/mod.rs and src/proto.rs.
use jrok_rs.Base.{◌≡◌, ◌↔◌, ◌⊎◌, refl, true, false, none, [], ◌∷◌, arith}
use jrok_rs.Exec.{returns, panics}
use jrok_rs.Net.{show_ip, v4}
use jrok_rs.Nat.Private.{InBlock, is_private_ip-blocks}
use jrok_rs.Nat.{open_nat, unknown, is_private_ip}
use jrok_rs.Nat.Discovery.{new_detector, parse_stun_response, detect}
use jrok_rs.Nat.Discovery.Fallback.{AllNames, detect-names}
use jrok_rs.Nat.Discovery.Panic.{parse-mapped_address_last}
use jrok_rs.Nat.Punch.{PunchSocket}
use jrok_rs.Stun.Parse.RoundTrip.{encode_response}
use jrok_rs.Stun.Parse.Mapped.{mapped_address}
use jrok_rs.Tests.Fixtures.{
  strokes_syntax, transaction_id, software, software-IsAttribute, mapped_ip, private_addr,
  private_text, dead_world,
}

parse-mapped_address_last_example :
    parse_stun_response
      (encode_response transaction_id (software ∷ mapped_address mapped_ip 48 57 ∷ []))
      "192.0.2.1:3478"
    ≡ panics
parse-mapped_address_last_example =
    parse-mapped_address_last transaction_id (software ∷ []) mapped_ip 48 57 "192.0.2.1:3478" refl
      (software-IsAttribute, tt) (omega arith, tt)

default_servers-AllNames : AllNames strokes_syntax new_detector.stun_servers
unfolding new_detector strokes_syntax
default_servers-AllNames = (refl, (refl, (refl, tt)))

detect-names_example :
    (is_private_ip private_addr.ip ≡ true
      → detect strokes_syntax dead_world new_detector private_text
        ≡ returns (record {
          local_addr = private_text;
          public_ip = "0.0.0.0";
          public_port = 0;
          nat_type = unknown;
          hairpinning = false;
        }))
    × (is_private_ip private_addr.ip ≡ false
        → detect strokes_syntax dead_world new_detector private_text
          ≡ returns (record {
            local_addr = private_text;
            public_ip = show_ip strokes_syntax private_addr.ip;
            public_port = private_addr.port;
            nat_type = open_nat;
            hairpinning = false;
          }))
unfolding strokes_syntax
detect-names_example =
    detect-names strokes_syntax dead_world new_detector private_text private_addr
      default_servers-AllNames refl

abbrev socket : PunchSocket
socket = record { bind = λ _. none; set_write_timeout = none }

is_private_ip-blocks_example : (is_private_ip (v4 mapped_ip) ≡ true) ↔ (
    InBlock 0x0a000000 0x1000000 mapped_ip
    ⊎ InBlock 0xac100000 0x100000 mapped_ip
    ⊎ InBlock 0xc0a80000 0x10000 mapped_ip
    ⊎ InBlock 0x7f000000 0x1000000 mapped_ip)
is_private_ip-blocks_example =
    is_private_ip-blocks mapped_ip (omega arith, omega arith, omega arith, omega arith)
