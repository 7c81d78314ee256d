-- ===== src/DocumentClient.antt =====
-- apps/web/src/app/docs/[docId]/DocumentClient.tsx: how the store, the documents of the blocks and the
-- connection are joined. `sent` lists the batches that it hands to `ws.send`. Its effect on
-- `pendingOps` runs after a rendering that found another array there; all that the handlers of one
-- event do is followed by one rendering.
mod Tests
pub mod Sending
pub mod Loading
pub mod Pasting
use block_docs.Base.{
  ℕ, String, Bool, true, false, Option, none, some, get_or, List, [], ◌∷◌, ◌++◌, map, if◌then◌else◌,
}
use block_docs.Types.{Block, BlockContent, BlockOperation, Payload, InlineNode, AwarenessEntry}
use block_docs.Store.{BlockStoreState, DocId, Pending}
use block_docs.Store.Queue.{
  OpsFrame, drain_pending, load_snapshot, reset_doc, set_awareness, set_last_stream_id,
}
use block_docs.Store.Local.{no_content}
use block_docs.Store.Remote.{apply_remote_ops}
use block_docs.Ws.Protocol.{ServerMessage, AwarenessInfo}
use block_docs.Ws.Handlers.Ops.Client.{hear}
use block_docs.Editor.Yjs.{YjsRegistry, apply_remote_delta, ensure, destroy, clear}

pub record DocumentClient (Doc : Type 0) : Type 0 where
  pub store : BlockStoreState
  pub yjs : YjsRegistry Doc
  pub is_open : Bool
  pub sent : List OpsFrame

or_last : Pending → Option Pending → Option Pending
or_last p none = some p
or_last p (some q) = some q

-- `pendingOps[pendingOps.length - 1]`
unfoldable pub last_pending : List Pending → Option Pending
unfolding or_last
last_pending [] = none
last_pending (p ∷ ps) = or_last p (last_pending ps)

abbrev pub frame_of : Pending → OpsFrame
frame_of p = record { client_seq = p.client_seq; ops = p.ops }

send_last : Bool → Option Pending → List OpsFrame → List OpsFrame
send_last true (some p) sent = sent ++ frame_of p ∷ []
send_last is_open last sent = sent

-- `as AwarenessEntry[]`
abbrev as_entry : AwarenessInfo → AwarenessEntry
as_entry u = record { user_id = u.user_id; state = u.state; color = u.color; name = u.name }

-- What a message does to the store.
unfoldable pub hear_store : ServerMessage → BlockStoreState → BlockStoreState
unfolding hear apply_remote_ops set_awareness set_last_stream_id reset_doc
hear_store (ServerMessage.remote_ops ops user id) s = apply_remote_ops ops (some id) s
hear_store (ServerMessage.crdt block_id delta user id) s = set_last_stream_id (some id) s
hear_store (ServerMessage.awareness users) s = set_awareness (map as_entry users) s
hear_store (ServerMessage.replay_done id) s = set_last_stream_id (some id) s
hear_store (ServerMessage.reload_required reason) s = reset_doc s
hear_store (ServerMessage.hello user id) s = s
hear_store (ServerMessage.ack seq results) s = hear (ServerMessage.ack seq results) s
hear_store (ServerMessage.nack seq conflicts) s = hear (ServerMessage.nack seq conflicts) s

-- Whether it writes `pendingOps`.
unfoldable pub writes_pending : ServerMessage → Bool
writes_pending (ServerMessage.ack seq results) = true
writes_pending (ServerMessage.nack seq conflicts) = true
writes_pending (ServerMessage.reload_required reason) = true
writes_pending _ = false

children_of : Option BlockContent → List InlineNode
children_of content = get_or (get_or content no_content).children []

-- The answer of `fetchBlocks`.
pub data Fetched : Type 0 where
  snapshot : DocId → List Block → (last_stream_id : String) → Fetched
  failed : Fetched

module _ {Doc : Type 0} where
  -- The effect on `pendingOps`.
  unfoldable pub pending_effect : DocumentClient Doc → DocumentClient Doc
  unfolding send_last last_pending
  pending_effect c = record c {
    sent = send_last c.is_open (last_pending c.store.pending_ops) c.sent;
  }

  -- An event whose handlers change the store by `change` and queue operations.
  unfoldable pub edit :
      (BlockStoreState → BlockStoreState) → DocumentClient Doc → DocumentClient Doc
  unfolding pending_effect
  edit change c = pending_effect (record c { store = change c.store })

  -- `ws.onOpen`
  unfoldable pub on_open : DocumentClient Doc → DocumentClient Doc
  unfolding drain_pending
  on_open c = record c { is_open = true; sent = c.sent ++ drain_pending c.store }

-- `fresh` and `apply` make and update a `Y.Doc`.
module _ {Doc : Type 0} (fresh : List InlineNode → Doc) (apply : String → Doc → Doc) where
  ensure_op : ℕ → String → Payload → YjsRegistry Doc → YjsRegistry Doc
  unfolding ensure destroy children_of
  ensure_op now id (Payload.insert_block type parent after content position) r =
      ensure fresh apply now id (children_of content) r
  ensure_op now id Payload.delete_block r = destroy id r
  ensure_op now id payload r = r

  ensure_ops : ℕ → List BlockOperation → YjsRegistry Doc → YjsRegistry Doc
  unfolding ensure_op
  ensure_ops now [] r = r
  ensure_ops now (op ∷ ops) r = ensure_ops now ops (ensure_op now op.block_id op.payload r)

  -- What it does to the documents.
  unfoldable pub hear_yjs : ℕ → ServerMessage → YjsRegistry Doc → YjsRegistry Doc
  unfolding ensure_ops apply_remote_delta clear
  hear_yjs now (ServerMessage.remote_ops ops user id) r = ensure_ops now ops r
  hear_yjs now (ServerMessage.crdt block_id delta user id) r =
      apply_remote_delta fresh apply now block_id delta r
  hear_yjs now (ServerMessage.reload_required reason) r = clear r
  hear_yjs now m r = r

  unfoldable pub ensure_blocks : ℕ → List Block → YjsRegistry Doc → YjsRegistry Doc
  unfolding ensure
  ensure_blocks now [] r = r
  ensure_blocks now (b ∷ bs) r =
      ensure_blocks now bs (ensure fresh apply now b.block_id (get_or b.content.children []) r)

  unfoldable pub on_message : ℕ → ServerMessage → DocumentClient Doc → DocumentClient Doc
  unfolding hear_store hear_yjs writes_pending pending_effect
  on_message now m c =
      let next = record c { store = hear_store m c.store; yjs = hear_yjs now m c.yjs } in
      if writes_pending m then pending_effect next else next

  -- `loadInitial` when its requests are answered.
  unfoldable pub load_initial : ℕ → Fetched → DocumentClient Doc → DocumentClient Doc
  unfolding ensure_blocks clear reset_doc load_snapshot pending_effect
  load_initial now failed c = c
  load_initial now (snapshot doc_id blocks last) c = pending_effect (record c {
    store = load_snapshot doc_id blocks last (reset_doc c.store);
    yjs = ensure_blocks now blocks (clear c.yjs);
  })
