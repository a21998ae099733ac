-- ===== src/Chat.antt =====
-- The chat server: app/models/irc_types.py, app/models/peerchat_state.py,
-- app/servers/peerchat_server.py and app/servers/peerchat_handlers.py.
pub mod Message
pub mod Types
pub mod Sending
pub mod Channels
pub mod Handlers
pub mod Connection
pub mod Pings
pub mod Invariant
pub mod Reachable
