-- ===== src/Ws/Handlers/Awareness.antt =====
-- apps/ws/src/handlers/awareness.ts.
use block_docs.Base.{ℕ, Bool, some, [], ◌∷◌}
use block_docs.Types.{AwarenessState}
use block_docs.Ws.Protocol.{ServerMessage}
use block_docs.Ws.Room.{Registry, Sends, broadcast_local}
use block_docs.Ws.Handlers.{Context}

-- The state that the context keeps, and what is written. Color and name are left empty.
unfoldable pub handle_awareness :
    (ℕ → Bool) → Context → AwarenessState → Registry → AwarenessState × Sends
unfolding broadcast_local
handle_awareness is_open ctx state r = (
  state,
  broadcast_local is_open ctx.doc_id
      (ServerMessage.awareness
        (record { user_id = ctx.user_id; state = state; color = ""; name = "" } ∷ []))
      (some ctx.socket) r,
)
