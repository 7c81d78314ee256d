-- ===== src/Store/Invariant/Tests.antt =====
-- What the store queues, under the server's schemas, at concrete input.
use mathlib.Core.List.{Memᴰ}
use block_docs.Base.{
  ◌≡◌, refl, String, Option, none, some, List, [], ◌∷◌, string_discrete, string_key,
}
use block_docs.JsMap
use block_docs.Types.{Json, Fields, Payload, Block, paragraph, end, delete_block}
use block_docs.Store.{name}
use block_docs.Store.Local
use block_docs.Store.Queue.{OpsFrame, drain_pending, load_snapshot}
use block_docs.Store.Invariant.{Action, loads, deletes, step}
use block_docs.Store.Invariant.Step.{run}
use block_docs.Store.Invariant.Sendable.{IsSound, outgoing, parse_client_message-drain_pending}
use block_docs.Ws.Protocol.{ClientMessage}
use block_docs.Ws.Protocol.Schema.{ok, parse_client_message}
use block_docs.Ws.Protocol.Schema.Frame.{is_named}
use block_docs.Ws.Protocol.Schema.Client.{message_of, outgoing_json}

abbrev block : Block
block = record {
  block_id = "a";
  parent_id = none;
  position = b'h' ∷ [];
  depth = 0;
  type = paragraph;
  content = Local.no_content;
  version = 1;
}

abbrev actions : List Action
actions = loads (name "doc") (block ∷ []) "0-0" ∷ deletes "a" ∷ []

abbrev frame : OpsFrame
frame = record {
  client_seq = 1;
  ops = record { block_id = "a"; payload = delete_block; version = some 1 } ∷ [];
}

abbrev no_payload : Payload → Fields
no_payload p = end

abbrev parses : String → Option Json
parses raw = some (outgoing_json no_payload (outgoing no_payload frame))

abbrev writes : Json → String
writes v = "{\"ch\":\"ops\",\"clientSeq\":1}"

parse_client_message-drain_pending_example :
    parse_client_message parses (writes (outgoing_json no_payload (outgoing no_payload frame)))
    ≡ ok (message_of no_payload (ClientMessage.ops 1 frame.ops))
unfolding IsSound is_named string_discrete run step load_snapshot Local.delete_block JsMap.get
    drain_pending
parse_client_message-drain_pending_example =
    parse_client_message-drain_pending no_payload parses writes actions frame ((refl, tt), (tt, tt))
      (Memᴰ.head refl) refl
