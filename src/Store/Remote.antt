-- ===== src/Store/Remote.antt =====
-- What apps/web/src/store/block-store.ts does with the server's messages: operations of others, and
-- the answers to its own.
pub mod Converge
use block_docs.Base.{
  ℕ, ◌+◌, String, Option, none, some, get_or, List, [], ◌∷◌, string_key, string_discrete,
}
use block_docs.JsMap
use block_docs.Types.{Block, BlockContent, Payload, BlockOperation, OpResult, Conflict}
use block_docs.Store.{BlockStoreState}
use block_docs.Store.Index.{Blocks}
use block_docs.Store.Queue.{without, with_blocks}
use block_docs.Store.Local.{no_content, depth_under, without_block, with_attrs}

-- `(op.version ?? b.version) + 1`
abbrev pub bumped : Option ℕ → Block → ℕ
bumped version b = get_or version b.version + 1

-- `const b = next.get(op.blockId); if (!b) break; next.set(op.blockId, f(b))`
unfoldable pub change_found : String → (Block → Block) → Option Block → Blocks → Blocks
change_found id f none next = next
change_found id f (some b) next = JsMap.set id (f b) next

unfoldable pub change : String → (Block → Block) → Blocks → Blocks
unfolding change_found JsMap.get JsMap.set string_discrete
change id f next = change_found id f (JsMap.get id next) next

unfoldable pub apply_payload : String → Option ℕ → Payload → Blocks → Blocks
unfolding change
apply_payload id version (Payload.insert_block type parent_id after_id content position) next =
    JsMap.set id
      (record {
        block_id = id;
        parent_id = parent_id;
        position = position;
        depth = depth_under next parent_id;
        type = type;
        content = get_or content no_content;
        version = 1;
      })
      next
-- The deleted block is looked up after it was deleted, so `existing` is always `undefined`.
apply_payload id version Payload.delete_block next = without_block id none next
apply_payload id version (Payload.move_block parent_id after_id position) next =
    change id (λ b. record b { parent_id = parent_id; position = position }) next
apply_payload id version (Payload.update_attrs attrs) next =
    change id (λ b. record b { content = with_attrs attrs b.content; version = bumped version b })
      next
apply_payload id version (Payload.update_content content) next =
    change id (λ b. record b { content = content; version = bumped version b }) next

-- One round of the loop of `applyRemoteOps`.
unfoldable pub apply_op : BlockOperation → Blocks → Blocks
unfolding apply_payload depth_under without_block with_attrs
apply_op op next = apply_payload op.block_id op.version op.payload next

unfoldable pub apply_ops : List BlockOperation → Blocks → Blocks
unfolding apply_op
apply_ops [] next = next
apply_ops (op ∷ ops) next = apply_ops ops (apply_op op next)

abbrev or_else {ℓ} : {A : Type ℓ} → Option A → Option A → Option A
or_else none o = o
or_else (some a) o = some a

unfoldable pub apply_remote_ops :
    List BlockOperation → Option String → BlockStoreState → BlockStoreState
unfolding apply_ops with_blocks
apply_remote_ops ops stream_id s = record (with_blocks (apply_ops ops s.blocks) s) {
  last_stream_id = or_else stream_id s.last_stream_id;
}

unfoldable pub set_versions : List OpResult → Blocks → Blocks
unfolding change
set_versions [] next = next
set_versions (r ∷ rs) next =
    set_versions rs (change r.block_id (λ b. record b { version = r.new_version }) next)

unfoldable pub handle_ack : ℕ → List OpResult → BlockStoreState → BlockStoreState
unfolding set_versions without
handle_ack client_seq results s = record s {
  pending_ops = without client_seq s.pending_ops;
  blocks = set_versions results s.blocks;
}

-- The server's copy of a block replaces ours; without one, ours is dropped.
unfoldable pub settle : String → Option Block → Blocks → Blocks
settle id (some current) next = JsMap.set id current next
settle id none next = JsMap.delete id next

unfoldable pub settle_all : List Conflict → Blocks → Blocks
unfolding settle JsMap.set JsMap.delete string_discrete
settle_all [] next = next
settle_all (c ∷ cs) next = settle_all cs (settle c.block_id c.current next)

unfoldable pub handle_nack : ℕ → List Conflict → BlockStoreState → BlockStoreState
unfolding settle_all without with_blocks
handle_nack client_seq conflicts s = record (with_blocks (settle_all conflicts s.blocks) s) {
  pending_ops = without client_seq s.pending_ops;
}
