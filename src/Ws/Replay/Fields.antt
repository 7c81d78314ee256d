-- ===== src/Ws/Replay/Fields.antt =====
-- The stream entry of a delta, as apps/ws/src/handlers/crdt.ts writes it and apps/ws/src/replay.ts
-- reads it.
use block_docs.Base.{
  ◌≡◌, ◌≢◌, refl, String, some, List, [], ◌∷◌, if_neg, string_discrete, string_key,
}
use block_docs.JsMap
use block_docs.Ws.Protocol.{ServerMessage}
use block_docs.Ws.Replay.{
  Codec, sends, outcome, field, fields_to_map, fields_from, truthy, crdt_frame, frame_of_kind,
}

-- The fields of an entry of a delta.
abbrev pub crdt_fields : String → String → String → List String
crdt_fields block_id delta user =
    "kind" ∷ "crdt" ∷ "blockId" ∷ block_id ∷ "delta" ∷ delta ∷ "userId" ∷ user ∷ []

truthy-some : (s : String) → s ≢ "" → truthy (some s) ≡ some s
unfolding truthy
truthy-some s n = if_neg (string_discrete s "") n _ _

pub outcome-crdt :
    (c : Codec) (block_id delta user id : String)
    → block_id ≢ ""
    → delta ≢ ""
    → outcome c (record { id = id; fields = crdt_fields block_id delta user })
      ≡ sends (ServerMessage.crdt block_id delta (c.number user) id)
unfolding outcome field fields_to_map fields_from crdt_frame frame_of_kind JsMap.get JsMap.set
outcome-crdt c block_id delta user id b d = rw (truthy-some block_id b, truthy-some delta d) refl
