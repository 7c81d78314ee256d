-- ===== src/Ws/Protocol/Schema/Forward.antt =====
-- What the schemas of apps/ws/src/protocol.ts accept can be sent on: `remote_ops` forwards the
-- operations of a message to other clients.
use block_docs.Base.{
  ◌>>=◌, ◌≡◌, refl, ap, ap₂, subst, ◌∙◌, String, Bool, true, false, ◌&&◌, Option, none, some, List,
  [], ◌∷◌, ite, string_discrete, if◌then◌else◌, arith,
}
use block_docs.Types.{Json, Items, Fields, null, bool, num, real, str, arr, obj, nil, cons, Cursor}
use block_docs.Ws.Protocol.Schema.{
  ParsedOperation, ParsedAwareness, ParsedMessage, property, string, non_empty_string, natural,
  record_of, optional_check, nullable, op_name, block_operation, cursor_schema, awareness_state,
  each_operation, at_least_one, operations, ops_message, crdt_message, awareness_message, channel,
  client_message, refused, ok, checked, parsed_value, parse_client_message,
}
use block_docs.Ws.Protocol.Schema.Frame.{
  message_json, is_named, all_named, is_batch, is_placed, is_valid, kept, client_message-json,
}

-- What a check gives, if it gives something, passes a test.
abbrev Gives : {A : Type 0} → (A → Bool) → Option A → Type 0
Gives test none = Unit
Gives test (some a) = test a ≡ true

bind-Gives :
    {A B : Type 0} (test : B → Bool) (o : Option A) (f : A → Option B)
    → ((a : A) → o ≡ some a → Gives test (f a))
    → Gives test (o >>= f)
unfolding ◌>>=◌
bind-Gives test none f h = tt
bind-Gives test (some a) f h = h a refl

given :
    {A : Type 0} (test : A → Bool) (o : Option A) (a : A)
    → Gives test o
    → o ≡ some a
    → test a ≡ true
given test o a g e = subst (Gives test) e g

non_empty_string-is_named : (v : Option Json) → Gives is_named (non_empty_string v)
unfolding non_empty_string is_named
non_empty_string-is_named none = tt
non_empty_string-is_named (some (str s)) = ground arith
non_empty_string-is_named (some null) = tt
non_empty_string-is_named (some (bool b)) = tt
non_empty_string-is_named (some (num n)) = tt
non_empty_string-is_named (some (real x)) = tt
non_empty_string-is_named (some (arr items)) = tt
non_empty_string-is_named (some (obj f)) = tt

named : (v : Option Json) (s : String) → non_empty_string v ≡ some s → is_named s ≡ true
named v s e = given is_named (non_empty_string v) s (non_empty_string-is_named v) e

block_operation-is_named :
    (v : Option Json) → Gives (λ op. is_named op.block_id) (block_operation v)
unfolding block_operation
block_operation-is_named v =
    let test : ParsedOperation → Bool = λ op. is_named op.block_id in
    bind-Gives test (record_of v) _ λ f a. bind-Gives test (string (property "op" f)) _ λ name b.
      bind-Gives test (op_name name) _ λ op c.
        bind-Gives test (non_empty_string (property "blockId" f)) _ λ id e.
          bind-Gives test (record_of (property "payload" f)) _ λ payload g.
            bind-Gives test (optional_check natural (property "version" f)) _
              λ version h. named (property "blockId" f) id e

cursor_schema-is_named : (v : Option Json) → Gives (λ c. is_named c.block_id) (cursor_schema v)
unfolding cursor_schema
cursor_schema-is_named v =
    let test : Cursor → Bool = λ c. is_named c.block_id in
    bind-Gives test (record_of v) _ λ f a.
      bind-Gives test (non_empty_string (property "blockId" f)) _ λ id e.
        bind-Gives test (natural (property "offset" f)) _
          λ offset b. named (property "blockId" f) id e

optional_check-is_placed : (v : Option Json) → Gives is_placed (optional_check cursor_schema v)
unfolding optional_check is_placed
optional_check-is_placed none = refl
optional_check-is_placed (some v) = bind-Gives is_placed (cursor_schema (some v)) _ λ c e.
    given (λ d. is_named d.block_id) (cursor_schema (some v)) c (cursor_schema-is_named (some v)) e

awareness_state-is_placed : (v : Option Json) → Gives (λ s. is_placed s.cursor) (awareness_state v)
unfolding awareness_state
awareness_state-is_placed v =
    let test : ParsedAwareness → Bool = λ s. is_placed s.cursor in
    bind-Gives test (record_of v) _ λ f a.
      bind-Gives test (optional_check (nullable string) (property "focusedBlockId" f)) _
        λ focused b.
          bind-Gives test (optional_check cursor_schema (property "cursor" f)) _ λ cursor e.
            given is_placed (optional_check cursor_schema (property "cursor" f)) cursor
              (optional_check-is_placed (property "cursor" f)) e

each_operation-all_named : (items : Items) → Gives all_named (each_operation items)
unfolding each_operation all_named
each_operation-all_named nil = refl
each_operation-all_named (cons v items) = bind-Gives all_named (block_operation (some v)) _ λ op e.
    bind-Gives all_named (each_operation items) _ λ rest h.
      ap₂ (λ a b. a && b)
        (given (λ o. is_named o.block_id) (block_operation (some v)) op
          (block_operation-is_named (some v)) e)
        (given all_named (each_operation items) rest (each_operation-all_named items) h)

at_least_one-is_batch :
    (list : List ParsedOperation) → all_named list ≡ true → Gives is_batch (at_least_one list)
unfolding at_least_one is_batch
at_least_one-is_batch [] h = tt
at_least_one-is_batch (op ∷ list) h = h

operations-is_batch : (v : Option Json) → Gives is_batch (operations v)
unfolding operations
operations-is_batch none = tt
operations-is_batch (some (arr items)) =
    bind-Gives is_batch (each_operation items) at_least_one λ list e.
      at_least_one-is_batch list
        (given all_named (each_operation items) list (each_operation-all_named items) e)
operations-is_batch (some null) = tt
operations-is_batch (some (bool b)) = tt
operations-is_batch (some (num n)) = tt
operations-is_batch (some (real x)) = tt
operations-is_batch (some (str s)) = tt
operations-is_batch (some (obj f)) = tt

ops_message-is_valid : (f : Fields) → Gives is_valid (ops_message f)
unfolding ops_message is_valid
ops_message-is_valid f = bind-Gives is_valid (natural (property "clientSeq" f)) _ λ seq a.
    bind-Gives is_valid (operations (property "ops" f)) _ λ list e.
      given is_batch (operations (property "ops" f)) list (operations-is_batch (property "ops" f)) e

crdt_message-is_valid : (f : Fields) → Gives is_valid (crdt_message f)
unfolding crdt_message is_valid
crdt_message-is_valid f = bind-Gives is_valid (non_empty_string (property "blockId" f)) _ λ id e.
    bind-Gives is_valid (non_empty_string (property "delta" f)) _ λ delta h.
      ap₂ (λ a b. a && b) (named (property "blockId" f) id e) (named (property "delta" f) delta h)

awareness_message-is_valid : (f : Fields) → Gives is_valid (awareness_message f)
unfolding awareness_message is_valid
awareness_message-is_valid f = bind-Gives is_valid (awareness_state (property "state" f)) _ λ s e.
    given (λ t. is_placed t.cursor) (awareness_state (property "state" f)) s
      (awareness_state-is_placed (property "state" f)) e

ite-Gives :
    {A P : Type 0} (test : A → Bool) (d : Dec P) (x y : Option A)
    → Gives test x
    → Gives test y
    → Gives test (ite d x y)
ite-Gives test (yes p) x y g h = g
ite-Gives test (no n) x y g h = h

channel-is_valid : (ch : String) (f : Fields) → Gives is_valid (channel ch f)
unfolding channel
channel-is_valid ch f =
    ite-Gives is_valid (string_discrete ch "ops") (ops_message f) _ (ops_message-is_valid f) (
      ite-Gives is_valid (string_discrete ch "crdt") (crdt_message f) _ (crdt_message-is_valid f) (
        ite-Gives is_valid (string_discrete ch "awareness") (awareness_message f) none
          (awareness_message-is_valid f) tt))

client_message-is_valid : (v : Json) → Gives is_valid (client_message v)
unfolding client_message
client_message-is_valid v =
    bind-Gives is_valid (record_of (some v)) _
      λ f a. bind-Gives is_valid (string (property "ch" f)) _ λ ch b. channel-is_valid ch f

checked-kept : (b : Bool) (m : ParsedMessage) → checked (kept b m) ≡ (if b then ok m else refused)
unfolding checked
checked-kept true m = refl
checked-kept false m = refl

valid_if_checked :
    (o : Option ParsedMessage) (m : ParsedMessage)
    → Gives is_valid o
    → checked o ≡ ok m
    → is_valid m ≡ true
unfolding checked
valid_if_checked none m g e = cc
valid_if_checked (some n) m g e = cc

valid_if_ok : (o : Option Json) (m : ParsedMessage) → parsed_value o ≡ ok m → is_valid m ≡ true
unfolding parsed_value
valid_if_ok none m e = cc
valid_if_ok (some v) m e = valid_if_checked (client_message v) m (client_message-is_valid v) e

-- The last hypothesis: what `JSON.stringify` wrote for the message, `JSON.parse` reads.
module _ (json_parse : String → Option Json) (stringify : Json → String) (m : ParsedMessage)
    (reads : json_parse (stringify (message_json m)) ≡ some (message_json m)) where
  pub parse_client_message-message_json :
      parse_client_message json_parse (stringify (message_json m))
      ≡ (if is_valid m then ok m else refused)
  unfolding parse_client_message parsed_value
  parse_client_message-message_json =
      ap parsed_value reads ∙ ap checked (client_message-json m) ∙ checked-kept (is_valid m) m

  -- Whatever text comes in: if it is accepted, no name in it is empty and a batch has an operation,
  -- and the message that was read is accepted as the same when it is written out again, where
  -- `JSON.parse` reads what `JSON.stringify` wrote for it.
  pub parse_client_message-is_valid :
      (raw : String)
      → parse_client_message json_parse raw ≡ ok m
      → (is_valid m ≡ true) × (parse_client_message json_parse (stringify (message_json m)) ≡ ok m)
  unfolding parse_client_message
  parse_client_message-is_valid raw e =
      let valid = valid_if_ok (json_parse raw) m e in
      (valid, parse_client_message-message_json ∙ ap (λ b. if b then ok m else refused) valid)
