-- ===== src/Ws/Protocol/Schema.antt =====
-- The zod schemas of apps/ws/src/protocol.ts and `parseClientMessage`. A check gets `none` where the
-- property is missing (`undefined`), and gives `none` where zod reports an issue; the texts of the
-- issues, which are only logged, are left out. As with zod, properties that a schema does not name
-- are dropped, and a payload is kept whole. An object that `JSON.parse` made has each key once.
pub mod Frame
pub mod Forward
pub mod Client
use block_docs.Base.{
  ◌>>=◌, ℕ, ◌≡◌, String, Bool, true, false, Option, none, some, List, [], ◌∷◌, ite, string_discrete,
}
use block_docs.Types.{Json, Items, Fields, null, num, str, arr, obj, nil, cons, end, field, Cursor}

pub data OpName : Type 0 where
  insert_block delete_block move_block update_attrs update_content : OpName

pub record ParsedOperation : Type 0 where
  pub op : OpName
  pub block_id : String
  pub payload : Fields
  pub version : Option ℕ

-- `focused` is `none` where the property is missing, and `some none` where it is `null`.
pub record ParsedAwareness : Type 0 where
  pub focused : Option (Option String)
  pub cursor : Option Cursor

pub data ParsedMessage : Type 0 where
  ops : (client_seq : ℕ) → List ParsedOperation → ParsedMessage
  crdt : (block_id delta : String) → ParsedMessage
  awareness : ParsedAwareness → ParsedMessage

-- A property of an object.
unfoldable pub property : String → Fields → Option Json
unfolding string_discrete
property key end = none
property key (field k v rest) = ite (string_discrete k key) (some v) (property key rest)

-- `z.string()`
unfoldable pub string : Option Json → Option String
string (some (str s)) = some s
string v = none

-- `z.string().min(1)`
unfoldable pub non_empty_string : Option Json → Option String
unfolding string_discrete
non_empty_string (some (str s)) = ite (string_discrete s "") none (some s)
non_empty_string v = none

-- `z.number().int().nonnegative()`
unfoldable pub natural : Option Json → Option ℕ
natural (some (num n)) = some n
natural v = none

-- `z.record(z.unknown())`
unfoldable pub record_of : Option Json → Option Fields
record_of (some (obj f)) = some f
record_of v = none

-- `.optional()`
unfoldable pub optional_check :
    {A : Type 0} → (Option Json → Option A) → Option Json → Option (Option A)
unfolding ◌>>=◌
optional_check check none = some none
optional_check check (some v) = check (some v) >>= λ a. some (some a)

-- `.nullable()`
unfoldable pub nullable : {A : Type 0} → (Option Json → Option A) → Option Json → Option (Option A)
unfolding ◌>>=◌
nullable check (some null) = some none
nullable check v = check v >>= λ a. some (some a)

-- `z.enum([…])`
unfoldable pub op_name : String → Option OpName
unfolding string_discrete
op_name s = ite (string_discrete s "insert_block") (some insert_block) (
    ite (string_discrete s "delete_block") (some delete_block) (
      ite (string_discrete s "move_block") (some move_block) (
        ite (string_discrete s "update_attrs") (some update_attrs)
          (ite (string_discrete s "update_content") (some update_content) none))))

-- `BlockOperationSchema`
unfoldable pub block_operation : Option Json → Option ParsedOperation
unfolding ◌>>=◌ record_of property string op_name non_empty_string optional_check natural
block_operation v = do
  f ← record_of v
  name ← string (property "op" f)
  op ← op_name name
  block_id ← non_empty_string (property "blockId" f)
  payload ← record_of (property "payload" f)
  version ← optional_check natural (property "version" f)
  some (record { op = op; block_id = block_id; payload = payload; version = version })

unfoldable pub cursor_schema : Option Json → Option Cursor
unfolding ◌>>=◌ record_of property non_empty_string natural
cursor_schema v = do
  f ← record_of v
  block_id ← non_empty_string (property "blockId" f)
  offset ← natural (property "offset" f)
  some (record { block_id = block_id; offset = offset })

-- `AwarenessStateSchema`
unfoldable pub awareness_state : Option Json → Option ParsedAwareness
unfolding ◌>>=◌ record_of property optional_check nullable string cursor_schema
awareness_state v = do
  f ← record_of v
  focused ← optional_check (nullable string) (property "focusedBlockId" f)
  cursor ← optional_check cursor_schema (property "cursor" f)
  some (record { focused = focused; cursor = cursor })

unfoldable pub each_operation : Items → Option (List ParsedOperation)
unfolding ◌>>=◌ block_operation
each_operation nil = some []
each_operation (cons v items) = do
  op ← block_operation (some v)
  rest ← each_operation items
  some (op ∷ rest)

unfoldable pub at_least_one : List ParsedOperation → Option (List ParsedOperation)
at_least_one [] = none
at_least_one (op ∷ rest) = some (op ∷ rest)

-- `z.array(BlockOperationSchema).min(1)`
unfoldable pub operations : Option Json → Option (List ParsedOperation)
unfolding ◌>>=◌ each_operation at_least_one
operations (some (arr items)) = each_operation items >>= at_least_one
operations v = none

-- `ClientOpsMessageSchema`
unfoldable pub ops_message : Fields → Option ParsedMessage
unfolding ◌>>=◌ property natural operations
ops_message f = do
  client_seq ← natural (property "clientSeq" f)
  list ← operations (property "ops" f)
  some (ops client_seq list)

-- `ClientCrdtMessageSchema`
unfoldable pub crdt_message : Fields → Option ParsedMessage
unfolding ◌>>=◌ property non_empty_string
crdt_message f = do
  block_id ← non_empty_string (property "blockId" f)
  delta ← non_empty_string (property "delta" f)
  some (crdt block_id delta)

-- `ClientAwarenessMessageSchema`
unfoldable pub awareness_message : Fields → Option ParsedMessage
unfolding ◌>>=◌ property awareness_state
awareness_message f = do state ← awareness_state (property "state" f); some (awareness state)

-- `z.discriminatedUnion('ch', […])`
unfoldable pub channel : String → Fields → Option ParsedMessage
unfolding string_discrete ops_message crdt_message awareness_message
channel ch f = ite (string_discrete ch "ops") (ops_message f) (
    ite (string_discrete ch "crdt") (crdt_message f)
      (ite (string_discrete ch "awareness") (awareness_message f) none))

-- `ClientMessageSchema`
unfoldable pub client_message : Json → Option ParsedMessage
unfolding ◌>>=◌ record_of property string channel
client_message v = do f ← record_of (some v); ch ← string (property "ch" f); channel ch f

pub data Parsed : Type 0 where
  invalid_json refused : Parsed
  ok : (msg : ParsedMessage) → Parsed

unfoldable pub checked : Option ParsedMessage → Parsed
checked none = refused
checked (some msg) = ok msg

unfoldable pub parsed_value : Option Json → Parsed
unfolding checked client_message
parsed_value none = invalid_json
parsed_value (some v) = checked (client_message v)

-- `json_parse` is `JSON.parse`, with `none` where it throws.
unfoldable pub parse_client_message : (json_parse : String → Option Json) → (raw : String) → Parsed
unfolding parsed_value
parse_client_message json_parse raw = parsed_value (json_parse raw)
