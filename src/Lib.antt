-- ===== src/Lib.antt =====
-- A model of the tunnel server jrok-rs (src/ of the repository) and theorems about it.
--
-- Agents behind a NAT connect to a server; clients ask the server for a connection to the agent of a
-- subdomain. The facilitator (src/tcp/mod.rs) keeps a session for each request, asks the agent over
-- the channel of the registry (src/agent/registry.rs), and is polled by the client over HTTP. Whether
-- a direct connection is tried depends on NAT information (src/nat/mod.rs), which is detected with
-- STUN (src/stun/mod.rs and a second, simpler parser in src/nat/mod.rs); otherwise the relay
-- (src/relay/mod.rs) is used. Several servers share a database; one of them leads
-- (src/cluster/mod.rs).
--
-- Files:
--   Base, Exec, Bytes, Net: shared notions: numbers, maps, text; runs that may panic; byte indexing
--     with its bounds; addresses and what the network does.
--   Error: src/error.rs.
--   Stun: src/stun/mod.rs. Server is StunServer, Parse the functions parse_stun_response and
--     parse_mapped_address, Client the rest of StunClient. Parse/Encoding and Parse/Mapped hold an
--     encoder by RFC 5389, which the source does not have.
--   Nat: src/nat/mod.rs. Discovery is NatDetector, Punch is HolePuncher.
--   Proto: src/proto.rs.
--   Db: src/db/mod.rs and src/db/models.rs over migrations/001_init.sql. Statement says how a
--     statement ends and what SQL does to a list of rows; Agents, Servers, Ports, Tunnels and Keys are
--     the tables with the functions of Db on them (the row cluster_state is in Cluster).
--   Agent: src/agent/registry.rs; Register is registration and removal, Stale the
--     heartbeats and the cleanup, over the answers of the database; Register/Tables makes these answers
--     from the tables, and Remote is get_agent_server. Connection is handle_agent_connection of
--     src/agent/mod.rs.
--   Tcp: src/tcp/mod.rs. Session holds the session and the decisions on it, Tcp itself the operations
--     of ConnectionFacilitator, Http the handlers, Commands the runs of calls in any order;
--     Lifecycle has the moves that a session may make.
--   Tunnel: proxy_http of src/tunnel/mod.rs, with HttpResponse::into_response of
--     src/agent/registry.rs.
--   Relay: src/relay/mod.rs, ConnectionTracker and RelayServer; Puncher is UdpHolePuncher.
--   Cluster: the heartbeat loop of src/cluster/mod.rs with the leader statements of src/db/mod.rs.
--     Lease is about the row that all servers share, Flag about the flag of one server. Upkeep is
--     register_server, a round of cleanup_loop and shutdown, over the tables.
--   Api: the handlers of src/api/keys.rs.
--   Config: src/config.rs.
--   System: the whole server of src/main.rs. Its steps are the texts on the connections, the handlers
--     of the routing table that change the state and the cleanup of agents, in any order.
--     Start is main up to axum::serve, with Db::new of src/db/mod.rs, the start of the cluster and the
--     routing table; Access, Deaf and Safety are proofs.
--   Tests: concrete runs and instances of the theorems.
-- State: an operation takes the old state and returns the new one with its result. A write lock makes
-- each operation one step, so runs are lists of calls. A HashMap is an association list; iteration
-- goes in the order of the list. Clocks, random ids, sockets, channels, base64 and the address parser
-- of the standard library are arguments. An i64 keeps its wrap-around (Base/Int), a usize or u64
-- counter is taken modulo 2^64, as in a build without overflow checks. Log lines are left out.
--
-- Bounds: the two attribute loops run on fuel, one more than the length of the response; each round
-- moves on by at least four bytes, so it is enough (Stun/Parse/Safety, Nat/Discovery/Scan). Octets
-- and bytes are plain numbers; a theorem that needs them below 256 says so.
--
-- A tick of the heartbeat loop has its reads as arguments, which may be out of date, and one write, on
-- the row as it then is; so sequences of ticks stand for the interleavings of the servers.
--
-- A statement sent to the database is answered, or refused before it has an effect, or has its effect
-- while its answer is lost; a theorem says which of these it needs. What a statement means is SQL on a
-- list of rows with the constraints of the migrations; that it is answered includes that the database
-- accepts it with the parameters the code passes (some calls pass more than the placeholders).
-- Foreign keys are one reason for a refusal.
--
-- The loop of the hole puncher in src/relay/mod.rs runs on fuel, one for each test of its clock; 26 are
-- enough if the clock never reads less than the sleeps before it (Relay/Puncher/Halts).
--
-- In a step of System a handler runs as a whole; so the moment in which a registration has stored its
-- agent and has not yet dropped the receiver is no state of its own. What a handler draws, what the
-- database answers and what happens to the registry during the wait of a proxied request are any
-- values. A handler runs only if its extractors succeed; the router is served without the addresses of
-- its peers, so no request has the ConnectInfo that handle_tcp_connection_request asks for. Tcp models
-- the facilitator by its own calls, whether or not the server comes to make them.
--
-- Not modelled: the driver of the database, the WebSocket upgrade and the task that sends messages,
-- how axum matches a path with a pattern, the parsing of command line arguments, timers and log lines,
-- all of them libraries or input and output; src/api/mod.rs has no code of its own. JSON encodings are
-- derived by serde. cli/src/main.rs, the client, does not compile.
pub mod Base
pub mod Error
pub mod Exec
pub mod Bytes
pub mod Net
pub mod Nat
pub mod Proto
pub mod Stun
pub mod Config
pub mod Db
pub mod Agent
pub mod Tcp
pub mod Tunnel
pub mod Relay
pub mod Cluster
pub mod Api
pub mod System
pub mod Tests
