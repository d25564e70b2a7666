-- ===== src/Stun.antt =====
-- src/stun/mod.rs: the STUN client. UDP, randomness and the address syntax are arguments.
pub mod Server
pub mod Parse
pub mod Client
