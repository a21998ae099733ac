-- ===== src/Tests.antt =====
-- The properties at concrete inputs.
pub mod Relay
pub mod Sessions
pub mod Packets
pub mod Pairs
pub mod Sending
pub mod Ciphers
pub mod Chat
pub mod Lines
pub mod Master
pub mod UserSessions
pub mod MasterServer
pub mod Heartbeats
