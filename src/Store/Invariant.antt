-- ===== src/Store/Invariant.antt =====
-- All of the actions of apps/web/src/store/block-store.ts as one step, and the store's invariant.
pub mod Keeps
pub mod Step
pub mod Answers
pub mod Named
pub mod Sendable
mod Tests
use block_docs.Base.{ℕ, String, Option, List, ◌≡◌, refl, arith, string_key}
use block_docs.JsMap.{IsDistinct}
use block_docs.Types.{
  BlockType, Attrs, Block, BlockContent, BlockOperation, OpResult, Conflict, AwarenessEntry,
}
use block_docs.Store.{BlockStoreState, DocId}
use block_docs.Store.Index.{Index, Blocks, rebuild_index}
use block_docs.Store.Queue.{
  enqueue_ops, load_snapshot, reset_doc, set_awareness, set_focused_block_id, set_last_stream_id,
}
use block_docs.Store.Queue.Order.{Ascends}
use block_docs.Store.Local.{
  InsertOptions, Target, insert_block, delete_block, move_block, update_attrs, update_content,
}
use block_docs.Store.Remote.{apply_remote_ops, handle_ack, handle_nack}

-- The actions of `BlockStoreState`. `inserts` carries the identifier that `newBlockId` would make.
pub data Action : Type 0 where
  loads : DocId → List Block → String → Action
  resets : Action
  inserts : BlockType → InsertOptions → String → Action
  deletes : String → Action
  moves : String → Target → Action
  sets_attrs : String → Attrs → Action
  sets_content : String → BlockContent → Action
  hears : List BlockOperation → Option String → Action
  acks : ℕ → List OpResult → Action
  nacks : ℕ → List Conflict → Action
  sees : List AwarenessEntry → Action
  focuses : Option String → Action
  reaches : Option String → Action
  enqueues : List BlockOperation → Action

unfoldable pub step : BlockStoreState → Action → BlockStoreState
step s (loads doc_id blocks id) = load_snapshot doc_id blocks id s
step s resets = reset_doc s
step s (inserts type opts fresh) = (insert_block type opts fresh s).0
step s (deletes id) = delete_block id s
step s (moves id to) = move_block id to s
step s (sets_attrs id attrs) = update_attrs id attrs s
step s (sets_content id content) = update_content id content s
step s (hears ops stream_id) = apply_remote_ops ops stream_id s
step s (acks seq results) = handle_ack seq results s
step s (nacks seq conflicts) = handle_nack seq conflicts s
step s (sees users) = set_awareness users s
step s (focuses id) = set_focused_block_id id s
step s (reaches id) = set_last_stream_id id s
step s (enqueues ops) = (enqueue_ops ops s).0

abbrev pub index_of : BlockStoreState → Index
index_of s = record { root_order = s.root_order; children_map = s.children_map }

-- The index is that of the blocks, no key occurs twice, and the queue's numbers rise below the
-- counter.
pub record IsConsistent (s : BlockStoreState) : Type 0 where
  pub indexed : index_of s ≡ rebuild_index s.blocks
  pub distinct : IsDistinct s.blocks
  pub queued : Ascends 1 s.pending_ops s.client_seq_counter
