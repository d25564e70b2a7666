-- ===== src/Stun/Client/Safety.antt =====
-- Discovery always returns an endpoint.

use jrok_rs.Base.{◌≡◌, refl, String, List, [], ◌∷◌, take}
use jrok_rs.Exec.{Exec, Ends, returns, fails, panics, out_of_fuel}
use jrok_rs.Error.{Error, Result, ok, err}
use jrok_rs.Net.{
  AddrSyntax, UdpWorld, bind_failed, timeout_failed, send_failed, receive_failed, received,
  Exchange,
}
use jrok_rs.Stun.Server.{StunServer, to_socket_addr}
use jrok_rs.Stun.Parse.{PublicEndpoint}
use jrok_rs.Stun.Parse.Safety.{parse_stun_response-Ends}
use jrok_rs.Stun.Client.{
  StunClient, or_fail, on_exchange, try_stun_server, unknown_endpoint, discover_from,
  discover_public_endpoint,
}

on_exchange-Ends :
    (server : StunServer) (local_addr : String) (x : Exchange)
    → Ends (on_exchange server local_addr x)
unfolding on_exchange
on_exchange-Ends server local_addr (bind_failed e) = tt
on_exchange-Ends server local_addr (timeout_failed e) = tt
on_exchange-Ends server local_addr (send_failed e) = tt
on_exchange-Ends server local_addr (receive_failed e) = tt
on_exchange-Ends server local_addr (received datagram) =
    parse_stun_response-Ends (take 1024 datagram) server local_addr

or_fail-Ends {ℓ κ} :
    {A : Type ℓ} {B : Type κ} (r : Result A) (f : A → Exec B)
    → ((a : A) → Ends (f a))
    → Ends (or_fail r f)
or_fail-Ends (ok a) f h = h a
or_fail-Ends (err e) f h = tt

try_stun_server-Ends :
    (syn : AddrSyntax) (world : UdpWorld) (server : StunServer) (local_addr : String)
    → Ends (try_stun_server syn world server local_addr)
unfolding try_stun_server
try_stun_server-Ends syn world server local_addr =
    or_fail-Ends (to_socket_addr syn server) _ λ server_addr. on_exchange-Ends server local_addr _

-- What discovery over a list of servers may return: the answer of a server of the list, or the
-- unknown endpoint after a failure of every server.
pub data Discovers (syn : AddrSyntax) (world : UdpWorld) (local_addr : String)
    : List StunServer → PublicEndpoint → Type 0 where
  none_left : Discovers syn world local_addr [] (unknown_endpoint local_addr)
  answered :
      {server : StunServer} {servers : List StunServer} {endpoint : PublicEndpoint}
      → try_stun_server syn world server local_addr ≡ returns endpoint
      → Discovers syn world local_addr (server ∷ servers) endpoint
  failed :
      {server : StunServer} {servers : List StunServer} {endpoint : PublicEndpoint}
      → (e : Error) → try_stun_server syn world server local_addr ≡ fails e
      → Discovers syn world local_addr servers endpoint
      → Discovers syn world local_addr (server ∷ servers) endpoint

abbrev Outcome : AddrSyntax → UdpWorld → String → List StunServer → Type 0
Outcome syn world local_addr servers =
    (endpoint : PublicEndpoint) × (discover_from syn world servers local_addr ≡ returns endpoint)
    × Discovers syn world local_addr servers endpoint

discover_from-Discovers :
    (syn : AddrSyntax) (world : UdpWorld) (servers : List StunServer) (local_addr : String)
    → Outcome syn world local_addr servers
unfolding discover_from
discover_from-Discovers syn world [] local_addr = (unknown_endpoint local_addr, refl, none_left)
discover_from-Discovers syn world (server ∷ servers) local_addr =
    go (try_stun_server syn world server local_addr) refl
      (try_stun_server-Ends syn world server local_addr)
      (discover_from-Discovers syn world servers local_addr)
  where
    go :
        (r : Exec PublicEndpoint)
        → try_stun_server syn world server local_addr ≡ r
        → Ends (try_stun_server syn world server local_addr)
        → Outcome syn world local_addr servers
        → Outcome syn world local_addr (server ∷ servers)
    go (returns endpoint) e ends rest = (endpoint, rw (e, discover_from), answered e)
    go (fails x) e ends rest = (rest.0, rw (e, discover_from) rest.1, failed x e rest.2)
    go panics e ends rest = absurd (rw e at ends)
    go out_of_fuel e ends rest = absurd (rw e at ends)

-- Discovery returns an endpoint for every list of servers and every behaviour of the network: that
-- of the first server that answers, after failures of those before it, or the unknown endpoint
-- after failures of all.
pub discover_public_endpoint-Discovers :
    (syn : AddrSyntax) (world : UdpWorld) (client : StunClient) (local_addr : String)
    → (endpoint : PublicEndpoint) × (discover_public_endpoint syn world client local_addr
        ≡ returns endpoint)
      × Discovers syn world local_addr client.servers endpoint
unfolding discover_public_endpoint
discover_public_endpoint-Discovers syn world client local_addr =
    discover_from-Discovers syn world client.servers local_addr
