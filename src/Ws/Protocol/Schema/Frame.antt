-- ===== src/Ws/Protocol/Schema/Frame.antt =====
-- The frames that carry a message, as the values that `JSON.stringify` writes, and which of them the
-- schemas of apps/ws/src/protocol.ts accept.
use block_docs.Base.{
  ◌>>=◌, ℕ, ◌≡◌, refl, ap, ◌∙◌, String, Bool, true, false, ◌&&◌, Option, none, some, List, [], ◌∷◌,
  ite, string_discrete, if◌then◌else◌, arith,
}
use block_docs.Types.{Json, Items, Fields, null, num, str, arr, obj, nil, cons, end, field, Cursor}
use block_docs.Ws.Protocol.Schema.{
  OpName, insert_block, delete_block, move_block, update_attrs, update_content, ParsedOperation,
  ParsedAwareness, ParsedMessage, ops, crdt, awareness, property, string, non_empty_string, natural,
  record_of, optional_check, nullable, op_name, block_operation, cursor_schema, awareness_state,
  each_operation, at_least_one, operations, ops_message, crdt_message, awareness_message, channel,
  client_message,
}

abbrev pub op_text : OpName → String
op_text insert_block = "insert_block"
op_text delete_block = "delete_block"
op_text move_block = "move_block"
op_text update_attrs = "update_attrs"
op_text update_content = "update_content"

-- `undefined` is not written.
unfoldable pub optional_field : String → Option Json → Fields → Fields
optional_field key none rest = rest
optional_field key (some v) rest = field key v rest

unfoldable pub number_of : Option ℕ → Option Json
number_of none = none
number_of (some n) = some (num n)

unfoldable pub operation_json : ParsedOperation → Json
unfolding optional_field number_of
operation_json op = obj (
    field "op" (str (op_text op.op)) (
      field "blockId" (str op.block_id)
        (field "payload" (obj op.payload) (optional_field "version" (number_of op.version) end))))

unfoldable pub operations_json : List ParsedOperation → Items
unfolding operation_json
operations_json [] = nil
operations_json (op ∷ list) = cons (operation_json op) (operations_json list)

unfoldable pub focus_json : Option (Option String) → Option Json
focus_json none = none
focus_json (some none) = some null
focus_json (some (some id)) = some (str id)

unfoldable pub cursor_json : Option Cursor → Option Json
cursor_json none = none
cursor_json (some c) =
    some (obj (field "blockId" (str c.block_id) (field "offset" (num c.offset) end)))

unfoldable pub awareness_json : ParsedAwareness → Json
unfolding optional_field focus_json cursor_json
awareness_json s = obj (
    optional_field "focusedBlockId" (focus_json s.focused)
      (optional_field "cursor" (cursor_json s.cursor) end))

unfoldable pub message_json : ParsedMessage → Json
unfolding operations_json awareness_json
message_json (ops seq list) = obj (
    field "ch" (str "ops")
      (field "clientSeq" (num seq) (field "ops" (arr (operations_json list)) end)))
message_json (crdt id delta) =
    obj (field "ch" (str "crdt") (field "blockId" (str id) (field "delta" (str delta) end)))
message_json (awareness s) =
    obj (field "ch" (str "awareness") (field "state" (awareness_json s) end))

-- What the schemas ask of a message: names are not empty, and a batch has an operation.
unfoldable pub is_named : String → Bool
unfolding string_discrete
is_named s = ite (string_discrete s "") false true

unfoldable pub all_named : List ParsedOperation → Bool
unfolding is_named
all_named [] = true
all_named (op ∷ list) = is_named op.block_id && all_named list

unfoldable pub is_batch : List ParsedOperation → Bool
unfolding all_named
is_batch [] = false
is_batch (op ∷ list) = all_named (op ∷ list)

unfoldable pub is_placed : Option Cursor → Bool
unfolding is_named
is_placed none = true
is_placed (some c) = is_named c.block_id

unfoldable pub is_valid : ParsedMessage → Bool
unfolding is_batch is_named is_placed
is_valid (ops seq list) = is_batch list
is_valid (crdt id delta) = is_named id && is_named delta
is_valid (awareness s) = is_placed s.cursor

-- A value, where a test holds.
abbrev pub kept {ℓ} : {A : Type ℓ} → Bool → A → Option A
kept b a = if b then some a else none

pub non_empty_string-str : (s : String) → non_empty_string (some (str s)) ≡ kept (is_named s) s
unfolding non_empty_string is_named
non_empty_string-str s = ground arith

-- A check that passes where a test holds, before the others.
guarded :
    {A B : Type 0} (b : Bool) (a : A) (f : A → Option B) (o : Option B)
    → f a ≡ o
    → (kept b a >>= f) ≡ (if b then o else none)
unfolding ◌>>=◌
guarded true a f o e = e
guarded false a f o e = refl

both : {A : Type 0} (b c : Bool) (a : A) → (if b then kept c a else none) ≡ kept (b && c) a
both true c a = refl
both false c a = refl

op_name-op_text : (o : OpName) → op_name (op_text o) ≡ some o
unfolding op_name string_discrete
op_name-op_text insert_block = refl
op_name-op_text delete_block = refl
op_name-op_text move_block = refl
op_name-op_text update_attrs = refl
op_name-op_text update_content = refl

read_version :
    (key id : String) (payload : Fields) (o : Option ℕ)
    → optional_check natural (
        property "version" (
          field "op" (str key) (
            field "blockId"
              (str id)
              (field "payload" (obj payload) (optional_field "version" (number_of o) end)))))
      ≡ some o
unfolding optional_check natural property optional_field number_of ◌>>=◌ string_discrete
read_version key id payload none = refl
read_version key id payload (some n) = refl

-- The rest of an operation's checks.
named_operation : ParsedOperation → OpName → String → Option ParsedOperation
unfolding ◌>>=◌ optional_check natural property operation_json string_discrete
named_operation op name id = do
  version ← optional_check natural (
      property "version" (
        field "op" (str (op_text op.op)) (
          field "blockId" (str op.block_id) (
            field "payload" (obj op.payload)
              (optional_field "version" (number_of op.version) end)))))
  some (record { op = name; block_id = id; payload = op.payload; version = version })

block_operation-json :
    (op : ParsedOperation)
    → block_operation (some (operation_json op)) ≡ kept (is_named op.block_id) op
unfolding block_operation operation_json ◌>>=◌ record_of property string string_discrete
    named_operation
block_operation-json op =
    ap (λ o. o >>= λ n. non_empty_string (some (str op.block_id)) >>= named_operation op n)
      (op_name-op_text op.op)
    ∙ ap (λ o. o >>= named_operation op op.op) (non_empty_string-str op.block_id)
    ∙ guarded (is_named op.block_id) op.block_id (named_operation op op.op) (some op) (
        ap (λ o. o >>= λ v. some (record op { version = v }))
          (read_version (op_text op.op) op.block_id op.payload op.version))

each_operation-json :
    (list : List ParsedOperation)
    → each_operation (operations_json list) ≡ kept (all_named list) list
unfolding each_operation operations_json all_named ◌>>=◌
each_operation-json [] = refl
each_operation-json (op ∷ list) =
    ap (λ o. o >>= λ x. each_operation (operations_json list) >>= λ r. some (x ∷ r))
      (block_operation-json op)
    ∙ guarded (is_named op.block_id) op
        (λ x. each_operation (operations_json list) >>= λ r. some (x ∷ r))
        (kept (all_named list) (op ∷ list))
        (ap (λ o. o >>= λ r. some (op ∷ r)) (each_operation-json list)
          ∙ guarded (all_named list) list (λ r. some (op ∷ r)) (some (op ∷ list)) refl)
    ∙ both (is_named op.block_id) (all_named list) (op ∷ list)

operations-json :
    (list : List ParsedOperation)
    → operations (some (arr (operations_json list))) ≡ kept (is_batch list) list
unfolding operations is_batch at_least_one ◌>>=◌
operations-json [] = ap (λ o. o >>= at_least_one) (each_operation-json [])
operations-json (op ∷ list) =
    ap (λ o. o >>= at_least_one) (each_operation-json (op ∷ list))
    ∙ guarded (all_named (op ∷ list)) (op ∷ list) at_least_one (some (op ∷ list)) refl

cursor_schema-json :
    (c : Cursor)
    → optional_check cursor_schema (cursor_json (some c)) ≡ kept (is_named c.block_id) (some c)
unfolding optional_check cursor_schema cursor_json ◌>>=◌ record_of property string_discrete natural
    is_named
cursor_schema-json c = ground arith

abbrev read_cursor : Option (Option String) → Option Cursor → Option ParsedAwareness
read_cursor focus o = some (record { focused = focus; cursor = o })

with_cursor :
    (focus : Option (Option String)) (c : Cursor)
    → (optional_check cursor_schema (cursor_json (some c)) >>= read_cursor focus)
      ≡ kept (is_named c.block_id) (record { focused = focus; cursor = some c })
with_cursor focus c =
    ap (λ x. x >>= read_cursor focus) (cursor_schema-json c)
    ∙ guarded (is_named c.block_id) (some c) (read_cursor focus)
        (some (record { focused = focus; cursor = some c })) refl

awareness_state-fields :
    (focus : Option (Option String)) (cursor : Option Cursor)
    → awareness_state (some (awareness_json (record { focused = focus; cursor = cursor })))
      ≡ kept (is_placed cursor) (record { focused = focus; cursor = cursor })
unfolding awareness_state awareness_json ◌>>=◌ record_of property string_discrete optional_field
    focus_json cursor_json optional_check nullable string is_placed
awareness_state-fields none none = refl
awareness_state-fields (some none) none = refl
awareness_state-fields (some (some id)) none = refl
awareness_state-fields none (some c) = with_cursor none c
awareness_state-fields (some none) (some c) = with_cursor (some none) c
awareness_state-fields (some (some id)) (some c) = with_cursor (some (some id)) c

-- The schemas accept a message's frame exactly if its names are not empty and a batch has an
-- operation, and read it back.
pub client_message-json :
    (m : ParsedMessage) → client_message (message_json m) ≡ kept (is_valid m) m
unfolding client_message message_json ◌>>=◌ record_of property string string_discrete channel
    natural is_valid ops_message crdt_message awareness_message
client_message-json (ops seq list) =
    ap (λ o. o >>= λ l. some (ops seq l)) (operations-json list)
    ∙ guarded (is_batch list) list (λ l. some (ops seq l)) (some (ops seq list)) refl
client_message-json (crdt id delta) =
    ap (λ o. o >>= λ i. non_empty_string (some (str delta)) >>= λ d. some (crdt i d))
      (non_empty_string-str id)
    ∙ guarded (is_named id) id (λ i. non_empty_string (some (str delta)) >>= λ d. some (crdt i d))
        (kept (is_named delta) (crdt id delta))
        (ap (λ o. o >>= λ d. some (crdt id d)) (non_empty_string-str delta)
          ∙ guarded (is_named delta) delta (λ d. some (crdt id d)) (some (crdt id delta)) refl)
    ∙ both (is_named id) (is_named delta) (crdt id delta)
client_message-json (awareness s) =
    ap (λ o. o >>= λ t. some (awareness t)) (awareness_state-fields s.focused s.cursor)
    ∙ guarded (is_placed s.cursor) s (λ t. some (awareness t)) (some (awareness s)) refl
