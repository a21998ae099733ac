-- ===== src/Relay.antt =====
-- The UDP relay: app/models/relay_types.py, app/servers/port_pool.py, app/servers/relay_server.py.
pub mod Types
pub mod PortPool
pub mod Server
pub mod Datagram
pub mod Reachable
