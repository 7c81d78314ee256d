-- ===== src/Store.antt =====
-- apps/web/src/store/block-store.ts: the state of the editor's store. The actions are in the
-- children; an action takes the state and returns the next one.
pub mod Index
pub mod Position
pub mod Flatten
pub mod Local
pub mod Remote
pub mod Queue
pub mod Shape
pub mod Invariant
mod Tests
use block_docs.Base.{ℕ, String, Option, none, List, []}
use block_docs.JsMap.{JsMap}
use block_docs.Types.{Block, BlockOperation, AwarenessEntry}

-- `number | string`
pub data DocId : Type 0 where
  number : ℕ → DocId
  name : String → DocId

pub record Pending : Type 0 where
  pub client_seq : ℕ
  pub ops : List BlockOperation

pub record BlockStoreState : Type 0 where
  pub doc_id : Option DocId
  pub blocks : JsMap String Block
  pub root_order : List String
  pub children_map : JsMap String (List String)
  pub last_stream_id : Option String
  pub pending_ops : List Pending
  pub client_seq_counter : ℕ
  pub awareness : JsMap ℕ AwarenessEntry
  pub focused_block_id : Option String

abbrev pub initial : BlockStoreState
initial = record {
  doc_id = none;
  blocks = [];
  root_order = [];
  children_map = [];
  last_stream_id = none;
  pending_ops = [];
  client_seq_counter = 1;
  awareness = [];
  focused_block_id = none;
}
