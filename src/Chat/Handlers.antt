-- ===== src/Chat/Handlers.antt =====
-- `IRCFactory` of app/servers/peerchat_handlers.py. A handler takes the state, the connection that
-- sent the command and the parameters of the message.
pub mod Registration
pub mod Membership
pub mod Keys
pub mod Modes
pub mod Messaging
pub mod Queries
pub mod Dispatch
pub mod Quiet
pub mod Steps
pub mod Registering
pub mod Keeping
pub mod Respecting
pub mod Authority
pub mod Delivery
pub mod Nicknames
pub mod KeyLaws
pub mod Errors
pub mod Nameless
