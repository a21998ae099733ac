-- ===== src/Master.antt =====
-- The messages of the master server, app/servers/query_master_parsing.py, and the registry of games.
pub mod Request
pub mod Response
pub mod DefaultRooms
pub mod Filters
pub mod FilterParser
pub mod Registry
pub mod Matching
pub mod Handler
pub mod Connection
pub mod HeartbeatBody
pub mod Heartbeat
