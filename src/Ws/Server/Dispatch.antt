-- ===== src/Ws/Server/Dispatch.antt =====
-- The `message` listener of apps/ws/src/server.ts: which handler gets a message. A message that
-- `parseClientMessage` refuses is `none`. What a handler throws is only logged.
use block_docs.Base.{
  ℕ, ◌≡◌, ◌≢◌, refl, ◌∙◌, String, Bool, false, Option, none, some, List, [], ◌∷◌, map, if_neg,
  ℕ_discrete,
}
use block_docs.Ws.Protocol.{ClientMessage, ServerMessage}
use block_docs.Ws.Room.{Registry, Sends, contains, members}
use block_docs.Ws.Room.Broadcast.{received, broadcast_local_absent}
use block_docs.Ws.Handlers.{Context}
use block_docs.Ws.Handlers.Crdt.{Library, XAdd, handle_crdt}
use block_docs.Ws.Handlers.Crdt.Isolation.{handle_crdt_absent}
use block_docs.Ws.Handlers.Ops.{ApiAnswer, handle_ops}
use block_docs.Ws.Handlers.Awareness.{handle_awareness}

-- What the handlers are given, and the answers that they will get.
pub record Services : Type 0 where
  pub library : Library
  pub api_error : ℕ → String
  pub instance_id : String
  pub stream_max_len : ℕ
  pub xadd : XAdd
  pub api : ApiAnswer

-- What is written to sockets of this instance.
unfoldable pub on_client_message :
    Services → (ℕ → Bool) → Context → Option ClientMessage → Registry → Sends
unfolding handle_crdt handle_ops handle_awareness
on_client_message v is_open ctx none r = []
on_client_message v is_open ctx (some (ClientMessage.ops seq ops)) r =
    map (λ frame. (ctx.socket, frame)) (handle_ops v.api_error (is_open ctx.socket) seq ops v.api)
on_client_message v is_open ctx (some (ClientMessage.crdt block_id delta)) r =
    (handle_crdt v.library v.instance_id v.stream_max_len is_open ctx block_id delta v.xadd
      r).written
on_client_message v is_open ctx (some (ClientMessage.awareness state)) r =
    (handle_awareness is_open ctx state r).1

other_socket :
    (s ws : ℕ) (frames : List ServerMessage)
    → s ≢ ws
    → received ws (map (λ frame. (s, frame)) frames) ≡ []
unfolding received
other_socket s ws [] n = refl
other_socket s ws (f ∷ frames) n = if_neg (ℕ_discrete s ws) n _ _ ∙ other_socket s ws frames n

-- Whatever a client sends, and whatever Redis and the API answer: a socket that is neither the
-- sender nor in the room of the sender's document gets nothing.
pub on_client_message_isolated :
    (v : Services) (is_open : ℕ → Bool) (ctx : Context) (msg : Option ClientMessage) (r : Registry)
    (ws : ℕ)
    → ctx.socket ≢ ws
    → contains ws (members ctx.doc_id r) ≡ false
    → received ws (on_client_message v is_open ctx msg r) ≡ []
unfolding on_client_message received handle_awareness
on_client_message_isolated v is_open ctx none r ws n h = refl
on_client_message_isolated v is_open ctx (some (ClientMessage.ops seq ops)) r ws n h =
    other_socket ctx.socket ws (handle_ops v.api_error (is_open ctx.socket) seq ops v.api) n
on_client_message_isolated v is_open ctx (some (ClientMessage.crdt block_id delta)) r ws n h =
    handle_crdt_absent is_open ctx r ws v.library v.instance_id v.stream_max_len block_id delta
      v.xadd h
on_client_message_isolated v is_open ctx (some (ClientMessage.awareness state)) r ws n h =
    broadcast_local_absent is_open ctx.doc_id _ (some ctx.socket) r ws h
