-- ===== src/Ws/Protocol/Tests.antt =====
-- Runs of the schemas of apps/ws/src/protocol.ts, and the theorems about them at concrete input.
use block_docs.Base.{◌≡◌, refl, String, true, Option, none, some, [], ◌∷◌}
use block_docs.Types.{
  Json, Fields, Payload, null, num, real, str, arr, obj, nil, cons, end, field, delete_block,
}
use block_docs.Ws.Protocol.{ClientMessage}
use block_docs.Ws.Protocol.Schema
use block_docs.Ws.Protocol.Schema.{
  ParsedMessage, ok, refused, invalid_json, client_message, parse_client_message,
}
use block_docs.Ws.Protocol.Schema.Frame.{message_json, is_valid}
use block_docs.Ws.Protocol.Schema.Forward.{parse_client_message-is_valid}
use block_docs.Ws.Protocol.Schema.Client.{
  outgoing_json, received_as, parse_client_message-outgoing_json,
}
use block_docs.WsClient.{Outgoing, message}

-- A batch with one operation, with a property that the schemas do not name.
abbrev batch : Json → Json
batch version = obj (
    field "ch" (str "ops") (
      field "clientSeq" (num 1) (
        field "extra" null (
          field "ops"
            (arr (
              cons
                (obj (
                  field "op" (str "delete_block") (
                    field "blockId" (str "b")
                      (field "payload" (obj end) (field "version" version end)))))
                nil))
            end))))

abbrev batch_read : ParsedMessage
batch_read =
    Schema.ops 1
      (record { op = Schema.delete_block; block_id = "b"; payload = end; version = some 2 } ∷ [])

batch_accepted : client_message (batch (num 2)) ≡ some batch_read
unfolding client_message Schema.channel
batch_accepted = refl

-- A version that is `null`, or no natural number, is refused.
null_refused : client_message (batch null) ≡ none
unfolding client_message Schema.channel
null_refused = refl

fraction_refused : client_message (batch (real "0.5")) ≡ none
unfolding client_message Schema.channel
fraction_refused = refl

empty_refused :
    client_message
      (obj (field "ch" (str "crdt") (field "blockId" (str "") (field "delta" (str "AA==") end))))
    ≡ none
unfolding client_message Schema.channel
empty_refused = refl

abbrev crdt_read : ParsedMessage
crdt_read = Schema.crdt "b" "AA=="

abbrev parses : String → Option Json
parses raw = some (message_json crdt_read)

abbrev writes : Json → String
writes v = "{\"ch\":\"crdt\",\"blockId\":\"b\",\"delta\":\"AA==\"}"

parse_client_message-is_valid_example :
    (is_valid crdt_read ≡ true)
    × (parse_client_message parses (writes (message_json crdt_read)) ≡ ok crdt_read)
unfolding parse_client_message Schema.parsed_value Schema.checked client_message Schema.channel
    message_json
parse_client_message-is_valid_example =
    parse_client_message-is_valid parses writes crdt_read refl
      "{\"blockId\":\"b\",\"ch\":\"crdt\",\"delta\":\"AA==\"}" refl

abbrev no_payload : Payload → Fields
no_payload p = end

abbrev deletion : Outgoing
deletion =
    message (
      ClientMessage.ops 1
        (record { block_id = "b"; payload = delete_block; version = some 2 } ∷ []))

abbrev parses_deletion : String → Option Json
parses_deletion raw = some (outgoing_json no_payload deletion)

parse_client_message-outgoing_json_example :
    parse_client_message parses_deletion (writes (outgoing_json no_payload deletion))
    ≡ received_as no_payload deletion
parse_client_message-outgoing_json_example =
    parse_client_message-outgoing_json no_payload parses_deletion writes deletion refl
