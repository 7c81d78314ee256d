-- ===== src/Ws/Handlers/Crdt/Fanout.antt =====
-- Who gets a delta that apps/ws/src/handlers/crdt.ts accepts: sockets of this instance, sockets of
-- others over the bus, and those that connect later.
use block_docs.Base.{
  ℕ, ◌≡◌, ◌≢◌, refl, sym, ◌∙◌, ap, String, Bool, true, ◌&&◌, not, Option, none, some, List, [], ◌∷◌,
  ite, if_neg, arith, string_discrete,
}
use mathlib.Core.Bool.{false≢true}
use block_docs.Text.{Text, codes}
use block_docs.Ws.Protocol.{ServerMessage, BusEnvelope}
use block_docs.Ws.Room.{Registry, Sends, contains, members}
use block_docs.Ws.Room.Laws.{IsUnique}
use block_docs.Ws.Room.Broadcast.{received, once, is_sender, received-broadcast_local}
use block_docs.Ws.Bus.{channel_for, on_message}
use block_docs.Ws.Bus.Channel.{on_message-envelope}
use block_docs.Ws.Replay.{Entry, Codec}
use block_docs.Ws.Replay.Fields.{crdt_fields, outcome-crdt}
use block_docs.Ws.Replay.Complete.{frames}
use block_docs.Ws.Handlers.{Context}
use block_docs.Ws.Handlers.Crdt.{
  Library, is_valid_base64_non_empty, added, Append, handle_crdt, answered, distribute,
  entry_fields, is_nothing,
}

-- What an instance writes when it hears of what was published.
unfoldable pub heard : String → (ℕ → Bool) → Registry → Option (Text × BusEnvelope) → Sends
heard instance is_open r none = []
heard instance is_open r (some (channel, env)) = on_message instance is_open channel (some env) r

-- The entry that Redis has stored, under the id that it gave out.
unfoldable pub stored : String → Option Append → List Entry
stored id none = []
stored id (some a) = record { id = id; fields = a.fields } ∷ []

valid_delta :
    (lib : Library) (delta : String)
    → is_valid_base64_non_empty lib (codes delta) ≡ true
    → delta ≢ ""
unfolding is_valid_base64_non_empty is_nothing
valid_delta lib delta h p =
    false≢true (sym (ap (λ d. is_valid_base64_non_empty lib (codes d)) p) ∙ h)

received-envelope :
    (a b : String) (is_open : ℕ → Bool) (doc : ℕ) (frame : ServerMessage) (r : Registry) (ws : ℕ)
    → a ≢ ""
    → IsUnique (members doc r)
    → received ws (
        on_message b is_open
          (channel_for doc)
          (some (record { origin_instance = some a; frame = some frame }))
          r)
      ≡ ite (string_discrete a b) [] (once (contains ws (members doc r) && is_open ws) frame)
unfolding received
received-envelope a b is_open doc frame r ws n u =
    rw (on_message-envelope b a is_open doc frame r, if_neg (string_discrete a "") n)
      (ground (arith, received-broadcast_local is_open doc frame none r ws u))

-- The handler with a valid delta that was stored.
handle_crdt_valid :
    (lib : Library) (a : String) (max_len : ℕ) (is_open : ℕ → Bool) (ctx : Context)
    (block_id delta id : String) (r : Registry)
    → is_valid_base64_non_empty lib (codes delta) ≡ true
    → id ≢ ""
    → handle_crdt lib a max_len is_open ctx block_id delta (added id) r
      ≡ distribute a is_open ctx
          (ServerMessage.crdt block_id delta (some ctx.user_id) id)
          r
          (record {
            doc_id = ctx.doc_id;
            max_len = max_len;
            fields = crdt_fields block_id delta (lib.print ctx.user_id);
          })
unfolding handle_crdt answered entry_fields
handle_crdt_valid lib a max_len is_open ctx block_id delta id r v n =
    rw (v, handle_crdt) (if_neg (string_discrete id "") n _ _)

-- A valid delta that XADD stores under an id: each open socket of the document but the sender's gets
-- its frame exactly once, on this instance from the handler and on each other instance over the
-- bus; this instance ignores its own envelope; and a replay of the stored entry gives the same
-- frame (where `Number` reads back the user's number).
pub handle_crdt_reaches :
    (lib : Library) (c : Codec) (a b : String) (max_len : ℕ) (is_open : ℕ → Bool) (ctx : Context)
    (block_id delta id : String) (ra rb : Registry) (ws : ℕ)
    → is_valid_base64_non_empty lib (codes delta) ≡ true
    → a ≢ ""
    → id ≢ ""
    → block_id ≢ ""
    → c.number (lib.print ctx.user_id) ≡ some ctx.user_id
    → IsUnique (members ctx.doc_id ra)
    → IsUnique (members ctx.doc_id rb)
    → let effects = handle_crdt lib a max_len is_open ctx block_id delta (added id) ra in
      let frame = ServerMessage.crdt block_id delta (some ctx.user_id) id in
      (received ws effects.written
        ≡ once
            (contains ws (members ctx.doc_id ra)
              && (is_open ws && not (is_sender (some ctx.socket) ws)))
            frame)
      × (received ws (heard b is_open rb effects.published)
          ≡ ite
              (string_discrete a b)
              []
              (once (contains ws (members ctx.doc_id rb) && is_open ws) frame))
      × (frames c (stored id effects.append) ≡ frame ∷ [])
unfolding distribute heard stored frames
handle_crdt_reaches lib c a b max_len is_open ctx block_id delta id ra rb ws v na ni nb number ua
      ub =
    rw (handle_crdt_valid lib a max_len is_open ctx block_id delta id ra v ni) (
      received-broadcast_local is_open ctx.doc_id _ (some ctx.socket) ra ws ua,
      received-envelope a b is_open ctx.doc_id _ rb ws na ub,
      rw
          (
            outcome-crdt c block_id delta (lib.print ctx.user_id) id nb (valid_delta lib delta v),
            number,
          )
          refl,
    )
