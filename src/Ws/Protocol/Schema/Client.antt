-- ===== src/Ws/Protocol/Schema/Client.antt =====
-- The frames that apps/web/src/lib/ws.ts sends, under the schemas of apps/ws/src/protocol.ts. How a
-- payload is written is a parameter, since the schema does not look into it. The web program sends
-- no awareness; a focus that is `none` is written as a missing property.
use block_docs.Base.{
  ◌>>=◌, ◌≡◌, ap, String, Option, none, some, map, if◌then◌else◌, string_discrete,
}
use block_docs.Types
use block_docs.Types.{Json, Fields, str, obj, field, end, Payload, BlockOperation, AwarenessState}
use block_docs.Ws.Protocol.{ClientMessage}
use block_docs.Ws.Protocol.Schema
use block_docs.Ws.Protocol.Schema.{
  OpName, ParsedOperation, ParsedAwareness, ParsedMessage, property, string, record_of, channel,
  client_message, Parsed, refused, ok, checked, parsed_value, parse_client_message,
}
use block_docs.Ws.Protocol.Schema.Frame.{message_json, is_valid}
use block_docs.Ws.Protocol.Schema.Forward.{parse_client_message-message_json}
use block_docs.WsClient
use block_docs.WsClient.{Outgoing}

unfoldable pub name_of_payload : Payload → OpName
name_of_payload (Types.insert_block type parent after content position) = Schema.insert_block
name_of_payload Types.delete_block = Schema.delete_block
name_of_payload (Types.move_block parent after position) = Schema.move_block
name_of_payload (Types.update_attrs attrs) = Schema.update_attrs
name_of_payload (Types.update_content content) = Schema.update_content

unfoldable pub focus_of : Option String → Option (Option String)
focus_of none = none
focus_of (some id) = some (some id)

module _ (payload_json : Payload → Fields) where
  unfoldable pub operation_of : BlockOperation → ParsedOperation
  unfolding name_of_payload
  operation_of op = record {
    op = name_of_payload op.payload;
    block_id = op.block_id;
    payload = payload_json op.payload;
    version = op.version;
  }

  -- What the server is to read.
  unfoldable pub message_of : ClientMessage → ParsedMessage
  unfolding operation_of focus_of
  message_of (ClientMessage.ops seq list) = Schema.ops seq (map operation_of list)
  message_of (ClientMessage.crdt block_id delta) = Schema.crdt block_id delta
  message_of (ClientMessage.awareness state) =
      Schema.awareness (record { focused = focus_of state.focused_block_id; cursor = state.cursor })

  -- What `send` gives to `JSON.stringify`.
  unfoldable pub outgoing_json : Outgoing → Json
  unfolding message_of message_json
  outgoing_json (WsClient.message m) = message_json (message_of m)
  outgoing_json WsClient.pong = obj (field "ch" (str "pong") end)

  -- What the server makes of it.
  unfoldable pub received_as : Outgoing → Parsed
  unfolding message_of is_valid
  received_as (WsClient.message m) = if is_valid (message_of m) then ok (message_of m) else refused
  received_as WsClient.pong = refused

  -- Of what the client sends, the server accepts exactly the messages that have no empty name and no
  -- empty batch, and it reads them as they were; the answer to a ping it refuses. (`JSON.parse` reads
  -- what `JSON.stringify` wrote for the frame.)
  pub parse_client_message-outgoing_json :
      (json_parse : String → Option Json) (stringify : Json → String) (o : Outgoing)
      → json_parse (stringify (outgoing_json o)) ≡ some (outgoing_json o)
      → parse_client_message json_parse (stringify (outgoing_json o)) ≡ received_as o
  unfolding outgoing_json received_as parse_client_message parsed_value checked client_message ◌>>=◌
      property string record_of channel string_discrete
  parse_client_message-outgoing_json json_parse stringify (WsClient.message m) reads =
      parse_client_message-message_json json_parse stringify (message_of m) reads
  parse_client_message-outgoing_json json_parse stringify WsClient.pong reads =
      ap parsed_value reads
