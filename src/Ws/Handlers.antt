-- ===== src/Ws/Handlers.antt =====
-- apps/ws/src/handlers: what the server does with the three kinds of client messages.
pub mod Crdt
pub mod Ops
pub mod Awareness
use block_docs.Base.{ℕ}

-- The part of `SocketContext` that the handlers read, with the socket itself.
pub record Context : Type 0 where
  pub socket : ℕ
  pub doc_id : ℕ
  pub user_id : ℕ
