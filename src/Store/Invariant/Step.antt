-- ===== src/Store/Invariant/Step.antt =====
-- The invariant of apps/web/src/store/block-store.ts under each action.
use block_docs.Base.{
  String, Option, none, some, List, [], ◌∷◌, ◌≡◌, refl, sym, ◌∙◌, arith, string_key,
}
use block_docs.JsMap
use block_docs.JsMap.{IsDistinct}
use block_docs.JsMap.Laws.{set-IsDistinct}
use block_docs.Types.{Attrs, Block, BlockContent, BlockOperation}
use block_docs.Store.{BlockStoreState, initial}
use block_docs.Store.Index.{Blocks, rebuild_index}
use block_docs.Store.Shape.{SameShape, set-SameShape, rebuild_index-SameShape}
use block_docs.Store.Queue.{
  reset_doc, set_awareness, set_focused_block_id, set_last_stream_id, with_blocks, enqueue_ops,
  load_snapshot,
}
use block_docs.Store.Queue.Order.{Ascends-append, without-Ascends}
use block_docs.Store.Local.{
  Target, moved, with_attrs, enqueue, insert_block, delete_block, delete_found, move_block,
  move_found, update_attrs, attrs_found, update_content, content_found,
}
use block_docs.Store.Remote.{apply_remote_ops, set_versions, handle_ack, handle_nack}
use block_docs.Store.Invariant.Keeps.{
  without_block-IsDistinct, apply_ops-IsDistinct, by_block_id-IsDistinct, settle_all-IsDistinct,
  set_versions-Reshaped,
}
use block_docs.Store.Invariant.{
  Action, loads, resets, inserts, deletes, moves, sets_attrs, sets_content, hears, acks, nacks,
  sees, focuses, reaches, enqueues, step, IsConsistent,
}

enqueue_ops-IsConsistent :
    (ops : List BlockOperation) (s : BlockStoreState)
    → IsConsistent s
    → IsConsistent (enqueue_ops ops s).0
unfolding enqueue_ops
enqueue_ops-IsConsistent ops s c = record {
  indexed = c.indexed;
  distinct = c.distinct;
  queued = Ascends-append 1 s.client_seq_counter s.pending_ops _ c.queued refl;
}

enqueue-IsConsistent :
    (op : BlockOperation) (s : BlockStoreState) → IsConsistent s → IsConsistent (enqueue op s)
unfolding enqueue
enqueue-IsConsistent op s c = enqueue_ops-IsConsistent (op ∷ []) s c

with_blocks-IsConsistent :
    (next : Blocks) (s : BlockStoreState)
    → IsDistinct next
    → IsConsistent s
    → IsConsistent (with_blocks next s)
unfolding with_blocks
with_blocks-IsConsistent next s d c = record { indexed = refl; distinct = d; queued = c.queued }

-- A write that keeps every block's shape need not rebuild the index.
reshape-IsConsistent :
    (next : Blocks) (s : BlockStoreState)
    → IsDistinct next
    → SameShape next s.blocks
    → IsConsistent s
    → IsConsistent (record s { blocks = next })
reshape-IsConsistent next s d same c = record {
  indexed = c.indexed ∙ sym (rebuild_index-SameShape next s.blocks same);
  distinct = d;
  queued = c.queued;
}

delete_found-IsConsistent :
    (id : String) (o : Option Block) (s : BlockStoreState)
    → IsConsistent s
    → IsConsistent (delete_found id o s)
unfolding delete_found
delete_found-IsConsistent id none s c = c
delete_found-IsConsistent id (some b) s c =
    enqueue-IsConsistent _ _
      (with_blocks-IsConsistent _ s (without_block-IsDistinct id b.parent_id s.blocks c.distinct) c)

move_found-IsConsistent :
    (id : String) (to : Target) (o : Option Block) (s : BlockStoreState)
    → IsConsistent s
    → IsConsistent (move_found id to o s)
unfolding move_found
move_found-IsConsistent id to none s c = c
move_found-IsConsistent id to (some b) s c =
    enqueue-IsConsistent _ _
      (with_blocks-IsConsistent _ s (set-IsDistinct id (moved to b s) s.blocks c.distinct) c)

content_found-IsConsistent :
    (id : String) (content : BlockContent) (o : Option Block) (s : BlockStoreState)
    → JsMap.get id s.blocks ≡ o
    → IsConsistent s
    → IsConsistent (content_found id content o s)
unfolding content_found
content_found-IsConsistent id content none s e c = c
content_found-IsConsistent id content (some b) s e c =
    let next = record b { content = content } in
    reshape-IsConsistent _ s (set-IsDistinct id next s.blocks c.distinct)
      (set-SameShape id b next s.blocks e (record { id = refl; parent = refl; position = refl })) c

attrs_found-IsConsistent :
    (id : String) (attrs : Attrs) (o : Option Block) (s : BlockStoreState)
    → JsMap.get id s.blocks ≡ o
    → IsConsistent s
    → IsConsistent (attrs_found id attrs o s)
unfolding attrs_found
attrs_found-IsConsistent id attrs none s e c = c
attrs_found-IsConsistent id attrs (some b) s e c =
    let next = record b { content = with_attrs attrs b.content } in
    enqueue-IsConsistent _ _ (
      reshape-IsConsistent _ s (set-IsDistinct id next s.blocks c.distinct)
        (set-SameShape id b next s.blocks e (record { id = refl; parent = refl; position = refl }))
        c)

pub initial-IsConsistent : IsConsistent initial
unfolding rebuild_index
initial-IsConsistent = record { indexed = refl; distinct = tt; queued = omega arith }

-- Every action, local or from the server, keeps the store consistent.
pub step-IsConsistent :
    (s : BlockStoreState) (a : Action) → IsConsistent s → IsConsistent (step s a)
unfolding step load_snapshot reset_doc insert_block delete_block move_block update_attrs
    update_content apply_remote_ops handle_ack handle_nack set_awareness set_focused_block_id
    set_last_stream_id
step-IsConsistent s (loads doc_id blocks id) c = record {
  indexed = refl;
  distinct = by_block_id-IsDistinct blocks [] tt;
  queued = omega arith;
}
step-IsConsistent s resets c = record { indexed = refl; distinct = tt; queued = omega arith }
step-IsConsistent s (inserts type opts fresh) c =
    enqueue-IsConsistent _ _
      (with_blocks-IsConsistent _ s (set-IsDistinct _ _ s.blocks c.distinct) c)
step-IsConsistent s (deletes id) c = delete_found-IsConsistent id (JsMap.get id s.blocks) s c
step-IsConsistent s (moves id to) c = move_found-IsConsistent id to (JsMap.get id s.blocks) s c
step-IsConsistent s (sets_attrs id attrs) c =
    attrs_found-IsConsistent id attrs (JsMap.get id s.blocks) s refl c
step-IsConsistent s (sets_content id content) c =
    content_found-IsConsistent id content (JsMap.get id s.blocks) s refl c
step-IsConsistent s (hears ops stream_id) c =
    let d = with_blocks-IsConsistent _ s (apply_ops-IsDistinct ops s.blocks c.distinct) c in
    record { indexed = d.indexed; distinct = d.distinct; queued = d.queued }
step-IsConsistent s (acks seq results) c =
    let r = set_versions-Reshaped results s.blocks c.distinct in
    let d = reshape-IsConsistent (set_versions results s.blocks) s r.distinct r.shape c in
    record {
      indexed = d.indexed;
      distinct = d.distinct;
      queued = without-Ascends seq 1 s.client_seq_counter s.pending_ops c.queued;
    }
step-IsConsistent s (nacks seq conflicts) c =
    let d = with_blocks-IsConsistent _ s (settle_all-IsDistinct conflicts s.blocks c.distinct) c in
    record {
      indexed = d.indexed;
      distinct = d.distinct;
      queued = without-Ascends seq 1 s.client_seq_counter s.pending_ops c.queued;
    }
step-IsConsistent s (sees users) c = record {
  indexed = c.indexed;
  distinct = c.distinct;
  queued = c.queued;
}
step-IsConsistent s (focuses id) c = record {
  indexed = c.indexed;
  distinct = c.distinct;
  queued = c.queued;
}
step-IsConsistent s (reaches id) c = record {
  indexed = c.indexed;
  distinct = c.distinct;
  queued = c.queued;
}
step-IsConsistent s (enqueues ops) c = enqueue_ops-IsConsistent ops s c

unfoldable pub run : BlockStoreState → List Action → BlockStoreState
run s [] = s
run s (a ∷ actions) = run (step s a) actions

run-keeps :
    (s : BlockStoreState) (actions : List Action) → IsConsistent s → IsConsistent (run s actions)
unfolding run
run-keeps s [] c = c
run-keeps s (a ∷ actions) c = run-keeps (step s a) actions (step-IsConsistent s a c)

-- So the store is consistent after any sequence of actions from its initial state.
pub run-IsConsistent : (actions : List Action) → IsConsistent (run initial actions)
run-IsConsistent actions = run-keeps initial actions initial-IsConsistent
