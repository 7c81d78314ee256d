-- ===== src/Ws/Handlers/Ops/Client.antt =====
-- What an answer to a batch of operations does at the client that sent it: the cases `ack` and
-- `nack` of apps/web/src/app/docs/[docId]/DocumentClient.tsx hand it to the block store.
use block_docs.Base.{
  ℕ, ◌≡◌, refl, ◌∙◌, ap, String, Bool, true, false, none, get_or, List, [], ◌∷◌, map, ite, if_pos,
  ltb, arith, ℕ_discrete, string_discrete, string_key,
}
use block_docs.JsMap
use block_docs.JsMap.Laws.{get-delete}
use block_docs.Types.{BlockOperation, Conflict}
use block_docs.Ws.Protocol.{ServerMessage, ConflictInfo}
use block_docs.Ws.Handlers.Ops.{
  ApiAnswer, network_error, response, answer, handle_ops, conflict_for, block_of,
}
use block_docs.Store.{BlockStoreState}
use block_docs.Store.Queue.{with_blocks}
use block_docs.Store.Remote.{handle_ack, handle_nack, settle, settle_all}
use block_docs.Store.Invariant.{IsConsistent}
use block_docs.Store.Invariant.Answers.{waits, waits-answer}

-- The conflict as the client reads it; the store never looks at the reason.
unfoldable pub as_conflict : ConflictInfo → Conflict
as_conflict c = record { block_id = c.block_id; reason = get_or c.reason ""; current = c.current }

unfoldable pub hear : ServerMessage → BlockStoreState → BlockStoreState
unfolding as_conflict
hear (ServerMessage.ack seq results) s = handle_ack seq results s
hear (ServerMessage.nack seq conflicts) s = handle_nack seq (map as_conflict conflicts) s
hear _ s = s

unfoldable pub hear_all : List ServerMessage → BlockStoreState → BlockStoreState
hear_all [] s = s
hear_all (m ∷ ms) s = hear_all ms (hear m s)

-- The API has taken the operations.
abbrev pub is_accepted : ApiAnswer → Bool
is_accepted network_error = false
is_accepted (response status body) = ltb status 400

abbrev pub is_ack : ServerMessage → Bool
is_ack (ServerMessage.ack seq results) = true
is_ack _ = false

-- An ack or a nack under the number.
abbrev IsAnswer : ℕ → ServerMessage → Type 0
IsAnswer seq (ServerMessage.ack n results) = n ≡ seq
IsAnswer seq (ServerMessage.nack n conflicts) = n ≡ seq
IsAnswer seq _ = ⊥

module _ (api_error : ℕ → String) where
  answer-IsAnswer :
      (seq : ℕ) (ops : List BlockOperation) (api : ApiAnswer)
      → IsAnswer seq (answer api_error seq ops api)
  unfolding answer
  answer-IsAnswer seq ops network_error = refl
  answer-IsAnswer seq ops (response status body) = ground arith

  is_ack-answer :
      (seq : ℕ) (ops : List BlockOperation) (api : ApiAnswer)
      → is_ack (answer api_error seq ops api) ≡ is_accepted api
  unfolding answer
  is_ack-answer seq ops network_error = refl
  is_ack-answer seq ops (response status body) = ground arith

  waits-hear :
      (t seq : ℕ) (m : ServerMessage) (s : BlockStoreState)
      → IsAnswer seq m
      → waits t (hear m s) ≡ ite (ℕ_discrete seq t) none (waits t s)
  unfolding hear
  waits-hear t seq (ServerMessage.ack n results) s e =
      (waits-answer t n results [] s).0 ∙ ap (λ k. ite (ℕ_discrete k t) none (waits t s)) e
  waits-hear t seq (ServerMessage.nack n conflicts) s e =
      (waits-answer t n [] (map as_conflict conflicts) s).1
      ∙ ap (λ k. ite (ℕ_discrete k t) none (waits t s)) e
  waits-hear t seq m s e = ground arith

  -- Whatever the API answers, and also if it cannot be reached: one frame is written to an open
  -- socket, it is an ack exactly if the status is below 400 (so every status from 400 on is a nack, 404
  -- and 422 as well as 409 and 5xx), and when the client has heard it, the
  -- batch no longer waits and every other batch waits as before.
  pub handle_ops_answers :
      (seq t : ℕ) (ops : List BlockOperation) (api : ApiAnswer) (s : BlockStoreState)
      → (map is_ack (handle_ops api_error true seq ops api) ≡ is_accepted api ∷ [])
        × (waits t (hear_all (handle_ops api_error true seq ops api) s)
            ≡ ite (ℕ_discrete seq t) none (waits t s))
  unfolding handle_ops hear_all
  handle_ops_answers seq t ops api s = (
    ap (λ b. b ∷ []) (is_ack-answer seq ops api),
    waits-hear t seq (answer api_error seq ops api) s (answer-IsAnswer seq ops api),
  )

  -- If the API cannot be reached, the client that hears the answer deletes the block of the first
  -- operation of the batch from its document.
  pub handle_ops_unreachable :
      (seq : ℕ) (op : BlockOperation) (ops : List BlockOperation) (s : BlockStoreState)
      → IsConsistent s
      → JsMap.get op.block_id
          (hear_all (handle_ops api_error true seq (op ∷ ops) network_error) s).blocks
        ≡ none
  unfolding handle_ops answer conflict_for block_of hear_all hear handle_nack with_blocks settle_all
      settle
  handle_ops_unreachable seq op ops s c =
      get-delete op.block_id op.block_id s.blocks c.distinct
      ∙ if_pos (string_discrete op.block_id op.block_id) refl _ _
