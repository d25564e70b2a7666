-- ===== src/Tests.antt =====
-- Runs of the model on concrete inputs, and instances of its theorems.
pub mod Fixtures
mod Stun
mod System
mod Nat
mod Tcp
mod Relay
mod Agent
mod Cluster
mod Db
mod Connection
mod Config
