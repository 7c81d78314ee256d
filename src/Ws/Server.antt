-- ===== src/Ws/Server.antt =====
-- apps/ws/src/server.ts: who is let in, the life of a connection, its messages, and the heartbeat.
pub mod Shutdown
pub mod Upgrade
pub mod Lifecycle
pub mod Heartbeat
pub mod Dispatch
