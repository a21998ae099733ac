-- ===== src/NatNeg.antt =====
-- NAT negotiation: app/models/natneg_types.py, app/util/natneg_protocol.py,
-- `NatNegSessionManager` of app/servers/sessions.py, and app/servers/natneg_server.py.
pub mod Header
pub mod Packets
pub mod Protocol
pub mod Client
pub mod Manager
pub mod Server
