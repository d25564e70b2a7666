-- ===== src/Stun/Client.antt =====
-- src/stun/mod.rs: the request, one exchange with a server, and the loop over the servers.
pub mod Safety
use jrok_rs.Base.{ℕ, ◌++◌, ◌≡◌, String, List, [], ◌∷◌, take, length}
use jrok_rs.Base.Text.{◌+s◌, show_ℕ}
use jrok_rs.Bytes.{to_be16, to_be32}
use jrok_rs.Error.{Result, Error, ok, err, internal}
use jrok_rs.Exec.{Exec, returns, fails, panics, out_of_fuel}
use jrok_rs.Net.{
  AddrSyntax, SocketAddr, Exchange, bind_failed, timeout_failed, send_failed, receive_failed,
  received, UdpWorld,
}
use jrok_rs.Stun.Server.{StunServer, to_socket_addr}
use jrok_rs.Stun.Parse.{
  PublicEndpoint, stun_binding_request, stun_magic_cookie, parse_stun_response,
}

pub record StunClient : Type 0 where
  pub servers : List StunServer
  pub timeout_secs : ℕ

-- `StunClient::new`
unfoldable pub new_client : StunClient
new_client = record {
  servers =
      record { addr = "stun.l.google.com"; port = 19302 }
      ∷ record { addr = "stun1.l.google.com"; port = 19302 }
      ∷ record { addr = "stun2.l.google.com"; port = 19302 }
      ∷ record { addr = "stun.cloudflare.com"; port = 3478 }
      ∷ [];
  timeout_secs = 3;
}

unfoldable pub with_servers : List StunServer → StunClient
with_servers servers = record { servers = servers; timeout_secs = 3 }

unfoldable pub create_stun_binding_request : List ℕ → List ℕ
create_stun_binding_request transaction_id =
    to_be16 stun_binding_request ++ to_be16 0 ++ to_be32 stun_magic_cookie ++ transaction_id

on_exchange : StunServer → String → Exchange → Exec PublicEndpoint
on_exchange server local_addr (bind_failed e) =
    fails (internal ("Failed to bind UDP socket: " +s e))
on_exchange server local_addr (timeout_failed e) =
    fails (internal ("Failed to set socket timeout: " +s e))
on_exchange server local_addr (send_failed e) =
    fails (internal ("Failed to send STUN request: " +s e))
on_exchange server local_addr (receive_failed e) =
    fails (internal ("Failed to receive STUN response: " +s e))
on_exchange server local_addr (received datagram) =
    parse_stun_response (take 1024 datagram) server local_addr

-- `?` on a Result.
abbrev or_fail {ℓ κ} : {A : Type ℓ} {B : Type κ} → Result A → (A → Exec B) → Exec B
or_fail (ok a) f = f a
or_fail (err e) f = fails e

unfoldable pub try_stun_server : AddrSyntax → UdpWorld → StunServer → String → Exec PublicEndpoint
unfolding to_socket_addr create_stun_binding_request on_exchange
try_stun_server syn world server local_addr = or_fail (to_socket_addr syn server) λ server_addr.
    on_exchange server local_addr (
      world.exchange local_addr server_addr (
        create_stun_binding_request
          (world.transaction_id (server.addr +s ":" +s show_ℕ server.port))))

-- The endpoint reported when every server has failed.
abbrev pub unknown_endpoint : String → PublicEndpoint
unknown_endpoint local_addr = record {
  public_ip = "0.0.0.0";
  public_port = 0;
  local_addr = local_addr;
  stun_server = "none";
}

-- The `for` loop over the servers.
discover_from : AddrSyntax → UdpWorld → List StunServer → String → Exec PublicEndpoint
discover_from syn world [] local_addr = returns (unknown_endpoint local_addr)
discover_from syn world (server ∷ servers) local_addr =
    elim (try_stun_server syn world server local_addr) [
      | returns endpoint ↦ returns endpoint
      | fails e ↦ discover_from syn world servers local_addr
      | panics ↦ panics
      | out_of_fuel ↦ out_of_fuel
    ]

unfoldable pub discover_public_endpoint :
    AddrSyntax → UdpWorld → StunClient → String → Exec PublicEndpoint
unfolding discover_from
discover_public_endpoint syn world client local_addr =
    discover_from syn world client.servers local_addr
