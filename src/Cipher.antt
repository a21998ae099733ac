-- ===== src/Cipher.antt =====
-- The stream ciphers of app/util: the chat server's, and those of the master and stats servers.
pub mod Arrays
pub mod Peerchat
pub mod EncTypeX
pub mod GameStats
