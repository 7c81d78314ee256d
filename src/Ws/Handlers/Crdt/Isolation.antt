-- ===== src/Ws/Handlers/Crdt/Isolation.antt =====
-- What a socket outside the document's room gets from apps/ws/src/handlers/crdt.ts.
use block_docs.Base.{
  ℕ, ◌≡◌, refl, String, Bool, false, some, [], ite, inl, inr, string_discrete, Bool-cases,
}
use block_docs.Text.{codes}
use block_docs.Ws.Protocol.{ServerMessage}
use block_docs.Ws.Room.{Registry, contains, members}
use block_docs.Ws.Room.Broadcast.{received, broadcast_local_absent}
use block_docs.Ws.Handlers.{Context}
use block_docs.Ws.Handlers.Crdt.{
  Library, is_valid_base64_non_empty, XAdd, failed, nothing, added, Append, given_up, distribute,
  answered, handle_crdt,
}

module _ (is_open : ℕ → Bool) (ctx : Context) (r : Registry) (ws : ℕ) where
  abbrev IsLeftOut : Type 0
  IsLeftOut = contains ws (members ctx.doc_id r) ≡ false

  chosen :
      {P : Type 0} (d : Dec P) (a : String) (append : Append) (frame : ServerMessage)
      → IsLeftOut
      → received ws (ite d (given_up append) (distribute a is_open ctx frame r append)).written ≡ []
  unfolding distribute given_up received
  chosen (yes p) a append frame h = refl
  chosen (no n) a append frame h =
      broadcast_local_absent is_open ctx.doc_id frame (some ctx.socket) r ws h

  answered_absent :
      (a : String) (x : XAdd) (append : Append) (frame : String → ServerMessage)
      → IsLeftOut
      → received ws (answered a is_open ctx frame r append x).written ≡ []
  unfolding answered given_up received
  answered_absent a failed append frame h = refl
  answered_absent a nothing append frame h = refl
  answered_absent a (added id) append frame h = chosen (string_discrete id "") a append (frame id) h

  pub handle_crdt_absent :
      (lib : Library) (a : String) (max_len : ℕ) (block_id delta : String) (xadd : XAdd)
      → IsLeftOut
      → received ws (handle_crdt lib a max_len is_open ctx block_id delta xadd r).written ≡ []
  unfolding handle_crdt received
  handle_crdt_absent lib a max_len block_id delta xadd h =
      elim (Bool-cases (is_valid_base64_non_empty lib (codes delta))) [
        | inl e ↦ rw (e, handle_crdt) (answered_absent a xadd _ _ h)
        | inr e ↦ rw (e, handle_crdt) refl
      ]
