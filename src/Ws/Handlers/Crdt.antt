-- ===== src/Ws/Handlers/Crdt.antt =====
-- apps/ws/src/handlers/crdt.ts. The answer of XADD is an argument, and so are `Buffer`'s two
-- directions of base64 and `String` of a number. A failure of PUBLISH is only logged.
pub mod Fanout
pub mod Isolation
use block_docs.Base.{
  ℕ, ◌≡◌, refl, String, Bool, true, false, ◌&&◌, not, Option, none, some, List, [], ◌∷◌, ite,
  if◌then◌else◌, ◌==◌, string_discrete,
}
use block_docs.Text.{Text, codes}
use block_docs.Ws.Protocol.{ServerMessage, BusEnvelope}
use block_docs.Ws.Room.{Registry, Sends, broadcast_local}
use block_docs.Ws.Bus.{channel_for}
use block_docs.Ws.Handlers.{Context}

pub record Library : Type 0 where
  pub from_base64 : Text → List ℕ
  pub to_base64 : List ℕ → Text
  pub print : ℕ → String

same_text : Text → Text → Bool
same_text [] [] = true
same_text (c ∷ s) (d ∷ t) = (c == d) && same_text s t
same_text s t = false

-- `s.replace(/=+$/, '')`
strip_equals : Text → Text
strip_equals [] = []
strip_equals (c ∷ s) = let rest = strip_equals s in if is_end c rest then [] else c ∷ rest
  where
    is_end : ℕ → Text → Bool
    is_end c [] = c == b'='
    is_end c (d ∷ t) = false

is_nothing : List ℕ → Bool
is_nothing [] = true
is_nothing (c ∷ s) = false

unfoldable pub is_valid_base64_non_empty : Library → Text → Bool
unfolding same_text strip_equals is_nothing
is_valid_base64_non_empty lib s =
    not (is_nothing s)
    && (not (is_nothing (lib.from_base64 s))
        && same_text (strip_equals (lib.to_base64 (lib.from_base64 s))) (strip_equals s))

-- The promise of XADD fails, or gives `null` or an id.
pub data XAdd : Type 0 where
  failed nothing : XAdd
  added : String → XAdd

pub record Append : Type 0 where
  pub doc_id : ℕ
  pub max_len : ℕ
  pub fields : List String

-- What a run of the handler does, in this order: the XADD that it sends, what it writes to sockets
-- of this instance, and what it publishes.
pub record Effects : Type 0 where
  pub append : Option Append
  pub written : Sends
  pub published : Option (Text × BusEnvelope)

entry_fields : Library → ℕ → String → String → List String
entry_fields lib user_id block_id delta =
    "kind" ∷ "crdt" ∷ "blockId" ∷ block_id ∷ "delta" ∷ delta ∷ "userId" ∷ lib.print user_id ∷ []

-- The handler from the answer of XADD on.
distribute : String → (ℕ → Bool) → Context → ServerMessage → Registry → Append → Effects
unfolding broadcast_local channel_for
distribute instance_id is_open ctx frame r append = record {
  append = some append;
  written = broadcast_local is_open ctx.doc_id frame (some ctx.socket) r;
  published =
      some
        (channel_for ctx.doc_id, record { origin_instance = some instance_id; frame = some frame });
}

given_up : Append → Effects
given_up append = record { append = some append; written = []; published = none }

answered :
    String → (ℕ → Bool) → Context → (String → ServerMessage) → Registry → Append → XAdd → Effects
unfolding distribute given_up string_discrete
answered instance_id is_open ctx frame r append failed = given_up append
answered instance_id is_open ctx frame r append nothing = given_up append
answered instance_id is_open ctx frame r append (added id) =
    ite (string_discrete id "") (given_up append)
      (distribute instance_id is_open ctx (frame id) r append)

unfoldable pub handle_crdt :
    Library → String → ℕ → (ℕ → Bool) → Context → String → String → XAdd → Registry → Effects
unfolding is_valid_base64_non_empty answered entry_fields
handle_crdt lib instance_id stream_max_len is_open ctx block_id delta xadd r =
    elim (is_valid_base64_non_empty lib (codes delta)) [
      | false ↦ record { append = none; written = []; published = none }
      | true ↦
          answered instance_id is_open ctx
            (λ id. ServerMessage.crdt block_id delta (some ctx.user_id) id) r
            (record {
              doc_id = ctx.doc_id;
              max_len = stream_max_len;
              fields = entry_fields lib ctx.user_id block_id delta;
            })
            xadd
    ]
