-- ===== src/Store/Queue.antt =====
-- The queue of operations that wait for an answer in apps/web/src/store/block-store.ts, and its
-- other plain setters.
pub mod Order
use block_docs.Base.{
  ℕ, zero, suc, ◌+◌, String, Option, none, some, List, [], ◌∷◌, ◌++◌, map, ite, ℕ_discrete, nat_key,
}
use block_docs.JsMap
use block_docs.JsMap.{JsMap}
use block_docs.Types.{Block, BlockOperation, AwarenessEntry}
use block_docs.Store.{BlockStoreState, Pending, DocId}
use block_docs.Store.Index.{Blocks, rebuild_index}
use block_docs.Base.{string_key}

-- The next state, and the sequence number that was given out.
unfoldable pub enqueue_ops : List BlockOperation → BlockStoreState → BlockStoreState × ℕ
enqueue_ops ops s =
    let client_seq = s.client_seq_counter in
    (
      record s {
        client_seq_counter = client_seq + 1;
        pending_ops = s.pending_ops ++ record { client_seq = client_seq; ops = ops } ∷ [];
      },
      client_seq,
    )

-- `pendingOps.filter((p) => p.clientSeq !== clientSeq)`
unfoldable pub without : ℕ → List Pending → List Pending
unfolding ℕ_discrete
without seq [] = []
without seq (p ∷ ps) = ite (ℕ_discrete p.client_seq seq) (without seq ps) (p ∷ without seq ps)

-- The frames that `drainPending` hands to `send`, in order. The queue stays as it is.
pub record OpsFrame : Type 0 where
  pub client_seq : ℕ
  pub ops : List BlockOperation

unfoldable pub drain_pending : BlockStoreState → List OpsFrame
drain_pending s = map (λ p. record { client_seq = p.client_seq; ops = p.ops }) s.pending_ops

-- `set({ blocks: next, rootOrder: idx.rootOrder, childrenMap: idx.childrenMap })`
unfoldable pub with_blocks : Blocks → BlockStoreState → BlockStoreState
unfolding rebuild_index
with_blocks next s =
    let idx = rebuild_index next in
    record s { blocks = next; root_order = idx.root_order; children_map = idx.children_map }

unfoldable pub by_block_id : List Block → Blocks → Blocks
by_block_id [] m = m
by_block_id (b ∷ bs) m = by_block_id bs (JsMap.set b.block_id b m)

unfoldable pub load_snapshot : DocId → List Block → String → BlockStoreState → BlockStoreState
unfolding with_blocks by_block_id JsMap.set
load_snapshot doc_id blocks last_stream_id s = record (with_blocks (by_block_id blocks []) s) {
  doc_id = some doc_id;
  last_stream_id = some last_stream_id;
  pending_ops = [];
  client_seq_counter = 1;
}

unfoldable pub reset_doc : BlockStoreState → BlockStoreState
reset_doc s = record s {
  blocks = [];
  root_order = [];
  children_map = [];
  last_stream_id = none;
  pending_ops = [];
  client_seq_counter = 1;
  awareness = [];
  focused_block_id = none;
}

unfoldable pub by_user_id : List AwarenessEntry → JsMap ℕ AwarenessEntry → JsMap ℕ AwarenessEntry
by_user_id [] m = m
by_user_id (u ∷ us) m = by_user_id us (JsMap.set u.user_id u m)

unfoldable pub set_awareness : List AwarenessEntry → BlockStoreState → BlockStoreState
unfolding by_user_id JsMap.set
set_awareness users s = record s { awareness = by_user_id users [] }

unfoldable pub set_focused_block_id : Option String → BlockStoreState → BlockStoreState
set_focused_block_id block_id s = record s { focused_block_id = block_id }

unfoldable pub set_last_stream_id : Option String → BlockStoreState → BlockStoreState
set_last_stream_id id s = record s { last_stream_id = id }
