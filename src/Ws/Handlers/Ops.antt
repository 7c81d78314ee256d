-- ===== src/Ws/Handlers/Ops.antt =====
-- apps/ws/src/handlers/ops.ts. The answer of the API server is an argument, and so is the text
-- `api_error_${status}`. A body that is not JSON is `none`; its fields can be missing.
pub mod Client
use block_docs.Base.{
  ℕ, ◌≡◌, refl, String, Bool, true, false, ◌||◌, Option, none, some, get_or, List, [], ◌∷◌, leb,
  ltb, ◌==◌, if◌then◌else◌, head?,
}
use block_docs.Types.{BlockOperation, OpResult}
use block_docs.Ws.Protocol.{ServerMessage, ConflictInfo}

pub record ApiOpsResponse : Type 0 where
  pub results : Option (List OpResult)
  pub conflicts : Option (List ConflictInfo)
  pub detail : Option String

-- `fetch` fails, or gives a status and a body.
pub data ApiAnswer : Type 0 where
  network_error : ApiAnswer
  response : (status : ℕ) → Option ApiOpsResponse → ApiAnswer

block_of : Option BlockOperation → String
block_of none = ""
block_of (some op) = op.block_id

-- `[{ blockId: msg.ops[0]?.blockId ?? '', reason }]`
conflict_for : List BlockOperation → String → List ConflictInfo
unfolding block_of
conflict_for ops reason =
    record { block_id = block_of (head? ops); reason = some reason; current = none } ∷ []

-- `body?.conflicts`, `body?.detail` and `body?.results`.
conflicts_of : Option ApiOpsResponse → Option (List ConflictInfo)
conflicts_of none = none
conflicts_of (some body) = body.conflicts

detail_of : Option ApiOpsResponse → Option String
detail_of none = none
detail_of (some body) = body.detail

results_of : Option ApiOpsResponse → Option (List OpResult)
results_of none = none
results_of (some body) = body.results

module _ (api_error : ℕ → String) where
  unfoldable pub answer : ℕ → List BlockOperation → ApiAnswer → ServerMessage
  unfolding conflict_for conflicts_of detail_of results_of
  answer seq ops network_error = ServerMessage.nack seq (conflict_for ops "api_unreachable")
  answer seq ops (response status body) =
      if status == 409
      then ServerMessage.nack seq (get_or (conflicts_of body) (conflict_for ops "conflict"))
      else if leb 500 status || leb 400 status
      then ServerMessage.nack seq (conflict_for ops (get_or (detail_of body) (api_error status)))
      else ServerMessage.ack seq (get_or (results_of body) [])

  -- What the socket that sent the operations gets, if it is open.
  unfoldable pub handle_ops :
      (is_open : Bool) → ℕ → List BlockOperation → ApiAnswer → List ServerMessage
  unfolding answer
  handle_ops true seq ops api = answer seq ops api ∷ []
  handle_ops false seq ops api = []
