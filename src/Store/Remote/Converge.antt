-- ===== src/Store/Remote/Converge.antt =====
-- What another replica makes of the operation that a local action of
-- apps/web/src/store/block-store.ts queues.
use block_docs.Base.{
  ◌+◌, ◌≡◌, ◌≢◌, refl, sym, ap, String, Option, none, some, [], ◌∷◌, ◌++◌, if_pos, if_neg,
  string_key,
}
use block_docs.JsMap
use block_docs.JsMap.{IsDistinct}
use block_docs.JsMap.Laws.{get-delete, get-map_values}
use block_docs.Types.{Attrs, Block, BlockType, BlockOperation}
use block_docs.Store.{BlockStoreState}
use block_docs.Store.Index.{Blocks, parent_discrete}
use block_docs.Store.Queue.{with_blocks}
use block_docs.Store.Local.{
  InsertOptions, Target, enqueue, new_block, insert_op, insert_block, without_block, reparent,
  delete_op, delete_block, moved, move_op, move_found, move_block, with_attrs, attrs_op,
  attrs_found, update_attrs,
}
use block_docs.Store.Remote.{change, change_found, apply_remote_ops}

-- The action from `s` to `t` queues `op` behind what waits already.
abbrev pub Queues : BlockStoreState → BlockOperation → BlockStoreState → Type 0
Queues s op t =
    t.pending_ops
    ≡ s.pending_ops ++ record { client_seq = s.client_seq_counter; ops = op ∷ [] } ∷ []

-- What a replica with the blocks of `s` has after it heard of `op`.
abbrev pub heard : BlockStoreState → BlockOperation → Blocks
heard s op = (apply_remote_ops (op ∷ []) none s).blocks

-- `insertBlock` queues one operation, and a replica with the same blocks that hears of it ends with
-- the same blocks.
pub heard-insert_block :
    (type : BlockType) (opts : InsertOptions) (fresh : String) (s : BlockStoreState)
    → let t = (insert_block type opts fresh s).0 in
      let op = insert_op opts (new_block type opts fresh s) in
      Queues s op t × (heard s op ≡ t.blocks)
unfolding insert_block apply_remote_ops
heard-insert_block type opts fresh s = (refl, refl)

module _ (s : BlockStoreState) (id : String) (b : Block)
    (found : JsMap.get id s.blocks ≡ some b) where
  delete_block-found :
      delete_block id s
      ≡ enqueue (delete_op id b) (with_blocks (without_block id b.parent_id s.blocks) s)
  unfolding delete_block
  delete_block-found = rw (found, delete_block)

  -- `deleteBlock` of a block at the root queues one operation, and a replica with the same blocks
  -- that hears of it ends with the same blocks.
  pub heard-delete_block :
      b.parent_id ≡ none
      → let t = delete_block id s in
        Queues s (delete_op id b) t × (heard s (delete_op id b) ≡ t.blocks)
  unfolding apply_remote_ops
  heard-delete_block root = rw delete_block-found (unfold enqueue with_blocks in (refl, rw root))

  -- The parent of a child of `id` after `id` was deleted with its children given to `to`.
  child-without_block :
      (to : Option String) (k : String) (c : Block)
      → IsDistinct s.blocks
      → k ≢ id
      → JsMap.get k s.blocks ≡ some c
      → c.parent_id ≡ some id
      → JsMap.get k (without_block id to s.blocks) ≡ some (record c { parent_id = to })
  unfolding without_block reparent
  child-without_block to k c d ne there child =
      rw
        (
          get-map_values (reparent id to) k (JsMap.delete id s.blocks),
          get-delete k id s.blocks d,
          if_neg (string_key.eq? id k) (λ e. ne (sym e)),
          there,
        )
        (ap some (if_pos (parent_discrete c.parent_id (some id)) child _ _))

  -- `deleteBlock` of a block with parent `g`: each child goes to `g` here, and to the root at a
  -- replica with the same blocks that hears of it.
  pub delete_block_diverges :
      (g k : String) (c : Block)
      → IsDistinct s.blocks
      → b.parent_id ≡ some g
      → k ≢ id
      → JsMap.get k s.blocks ≡ some c
      → c.parent_id ≡ some id
      → (JsMap.get k (delete_block id s).blocks ≡ some (record c { parent_id = some g }))
        × (JsMap.get k (heard s (delete_op id b)) ≡ some (record c { parent_id = none }))
  unfolding apply_remote_ops
  delete_block_diverges g k c d inner ne there child = (
    rw delete_block-found (
        unfold enqueue with_blocks in rw inner (child-without_block (some g) k c d ne there child)),
    child-without_block none k c d ne there child,
  )

  heard-change : (f : Block → Block) → change id f s.blocks ≡ JsMap.set id (f b) s.blocks
  unfolding change change_found
  heard-change f = rw (found, change_found)

  -- `moveBlock` queues one operation. A replica with the same blocks that hears of it puts the block
  -- at the same place, but leaves its depth as it was.
  pub heard-move_block :
      (to : Target)
      → let t = move_block id to s in
        let next = moved to b s in
        let op = move_op id to b next.position in
        Queues s op t
        × (t.blocks ≡ JsMap.set id next s.blocks)
        × (heard s op ≡ JsMap.set id (record next { depth = b.depth }) s.blocks)
  unfolding move_block move_found enqueue with_blocks apply_remote_ops move_op moved
  heard-move_block to = (rw (found, move_found), rw (found, move_found), heard-change _)

  -- `updateAttrs` queues one operation. A replica with the same blocks that hears of it has the same
  -- attributes, and the version raised by one, which `updateAttrs` itself leaves.
  pub heard-update_attrs :
      (attrs : Attrs)
      → let t = update_attrs id attrs s in
        let next = record b { content = with_attrs attrs b.content } in
        Queues s (attrs_op id attrs b) t
        × (t.blocks ≡ JsMap.set id next s.blocks)
        × (heard s (attrs_op id attrs b)
            ≡ JsMap.set id (record next { version = b.version + 1 }) s.blocks)
  unfolding update_attrs attrs_found enqueue apply_remote_ops
  heard-update_attrs attrs = (rw (found, attrs_found), rw (found, attrs_found), heard-change _)
