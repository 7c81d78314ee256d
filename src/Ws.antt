-- ===== src/Ws.antt =====
-- apps/ws/src: the WebSocket server.
pub mod Config
pub mod Protocol
pub mod Room
pub mod StreamId
pub mod Replay
pub mod Bus
pub mod Handlers
pub mod Server
mod Tests
