-- ===== src/Store/Local.antt =====
-- The local actions of apps/web/src/store/block-store.ts: each changes the blocks at once and queues
-- its operation.
use block_docs.Base.{
  ℕ, ◌+◌, String, Option, none, some, get_or, List, [], ◌∷◌, ◌++◌, ite, string_key, string_discrete,
}
use mathlib.Core.List.{flatten}
use block_docs.JsMap
use block_docs.JsMap.{JsMap}
use block_docs.Text.{Text}
use block_docs.Types.{BlockType, Attrs, BlockContent, Block, Payload, BlockOperation}
use block_docs.Store.{BlockStoreState}
use block_docs.Store.Index.{Blocks, parent_discrete}
use block_docs.Store.Position.{compute_position}
use block_docs.Store.Queue.{enqueue_ops, with_blocks}

-- `rootOrder`, then every list of `childrenMap`.
unfoldable pub all_order : BlockStoreState → List String
all_order s = s.root_order ++ flatten (JsMap.values s.children_map)

abbrev pub depth_of : Option Block → ℕ
depth_of none = 0
depth_of (some b) = b.depth

-- `parentId == null ? 0 : (blocks.get(parentId)?.depth ?? 0) + 1`
unfoldable pub depth_under : Blocks → Option String → ℕ
unfolding JsMap.get string_discrete
depth_under blocks none = 0
depth_under blocks (some p) = depth_of (JsMap.get p blocks) + 1

-- The third argument of `insertBlock`'s options; `undefined` and `null` parents are one.
pub record InsertOptions : Type 0 where
  pub after_id : Option String
  pub parent_id : Option String
  pub content : Option BlockContent
  pub block_id : Option String

abbrev pub no_content : BlockContent
no_content = record { children = none; attrs = none }

-- `get().enqueueOps([op])`
unfoldable pub enqueue : BlockOperation → BlockStoreState → BlockStoreState
unfolding enqueue_ops
enqueue op s = (enqueue_ops (op ∷ []) s).0

-- `opts.blockId ?? newBlockId()`, where `fresh` is the identifier that `newBlockId` makes.
abbrev pub new_id : InsertOptions → String → String
new_id opts fresh = get_or opts.block_id fresh

-- The block that `insertBlock` makes.
unfoldable pub new_block : BlockType → InsertOptions → String → BlockStoreState → Block
unfolding all_order depth_under compute_position
new_block type opts fresh s = record {
  block_id = new_id opts fresh;
  parent_id = opts.parent_id;
  position = compute_position s.blocks (all_order s) opts.parent_id opts.after_id;
  depth = depth_under s.blocks opts.parent_id;
  type = type;
  content = get_or opts.content no_content;
  version = 1;
}

unfoldable pub insert_op : InsertOptions → Block → BlockOperation
insert_op opts block = record {
  block_id = block.block_id;
  payload =
      Payload.insert_block block.type block.parent_id opts.after_id (some block.content)
        block.position;
  version = none;
}

unfoldable pub insert_block :
    BlockType → InsertOptions → String → BlockStoreState → BlockStoreState × String
unfolding new_block insert_op enqueue with_blocks JsMap.set string_discrete
insert_block type opts fresh s =
    let block = new_block type opts fresh s in
    let stored = with_blocks (JsMap.set block.block_id block s.blocks) s in
    (enqueue (insert_op opts block) stored, block.block_id)

-- `{ ...b, parentId: existing.parentId }` for the children of a deleted block.
unfoldable pub reparent : String → Option String → Block → Block
unfolding parent_discrete
reparent from to b = ite (parent_discrete b.parent_id (some from)) (record b { parent_id = to }) b

unfoldable pub without_block : String → Option String → Blocks → Blocks
unfolding reparent JsMap.delete JsMap.map_values string_discrete
without_block block_id parent_id blocks =
    JsMap.map_values (reparent block_id parent_id) (JsMap.delete block_id blocks)

abbrev pub delete_op : String → Block → BlockOperation
delete_op block_id existing = record {
  block_id = block_id;
  payload = Payload.delete_block;
  version = some existing.version;
}

unfoldable pub delete_found : String → Option Block → BlockStoreState → BlockStoreState
delete_found block_id none s = s
delete_found block_id (some existing) s =
    enqueue (delete_op block_id existing)
      (with_blocks (without_block block_id existing.parent_id s.blocks) s)

unfoldable pub delete_block : String → BlockStoreState → BlockStoreState
unfolding delete_found enqueue with_blocks without_block JsMap.get string_discrete
delete_block block_id s = delete_found block_id (JsMap.get block_id s.blocks) s

-- The second argument of `moveBlock`.
pub record Target : Type 0 where
  pub parent_id : Option String
  pub after_id : Option String

unfoldable pub moved : Target → Block → BlockStoreState → Block
unfolding all_order depth_under compute_position
moved to existing s = record existing {
  parent_id = to.parent_id;
  position = compute_position s.blocks (all_order s) to.parent_id to.after_id;
  depth = depth_under s.blocks to.parent_id;
}

unfoldable pub move_op : String → Target → Block → Text → BlockOperation
move_op block_id to existing position = record {
  block_id = block_id;
  payload = Payload.move_block to.parent_id to.after_id position;
  version = some existing.version;
}

unfoldable pub move_found : String → Target → Option Block → BlockStoreState → BlockStoreState
move_found block_id to none s = s
move_found block_id to (some existing) s =
    let next = moved to existing s in
    enqueue (move_op block_id to existing next.position)
      (with_blocks (JsMap.set block_id next s.blocks) s)

unfoldable pub move_block : String → Target → BlockStoreState → BlockStoreState
unfolding move_found moved move_op enqueue with_blocks JsMap.get JsMap.set string_discrete
move_block block_id to s = move_found block_id to (JsMap.get block_id s.blocks) s

-- `{ ...base, ...over }`
unfoldable pub spread : Attrs → Attrs → Attrs
unfolding JsMap.set string_discrete
spread base [] = base
spread base ((k, v) ∷ over) = spread (JsMap.set k v base) over

-- `{ ...b.content, attrs: { ...(b.content.attrs ?? {}), ...attrs } }`
unfoldable pub with_attrs : Attrs → BlockContent → BlockContent
unfolding spread
with_attrs attrs content = record content { attrs = some (spread (get_or content.attrs []) attrs) }

abbrev pub attrs_op : String → Attrs → Block → BlockOperation
attrs_op block_id attrs b = record {
  block_id = block_id;
  payload = Payload.update_attrs attrs;
  version = some b.version;
}

unfoldable pub attrs_found : String → Attrs → Option Block → BlockStoreState → BlockStoreState
attrs_found block_id attrs none s = s
attrs_found block_id attrs (some b) s =
    let next = record b { content = with_attrs attrs b.content } in
    enqueue (attrs_op block_id attrs b) (record s { blocks = JsMap.set block_id next s.blocks })

unfoldable pub update_attrs : String → Attrs → BlockStoreState → BlockStoreState
unfolding attrs_found with_attrs enqueue JsMap.get JsMap.set string_discrete
update_attrs block_id attrs s = attrs_found block_id attrs (JsMap.get block_id s.blocks) s

unfoldable pub content_found :
    String → BlockContent → Option Block → BlockStoreState → BlockStoreState
content_found block_id content none s = s
content_found block_id content (some b) s = record s {
  blocks = JsMap.set block_id (record b { content = content }) s.blocks;
}

-- No operation is queued: text goes over the CRDT channel.
unfoldable pub update_content : String → BlockContent → BlockStoreState → BlockStoreState
unfolding content_found JsMap.get JsMap.set string_discrete
update_content block_id content s = content_found block_id content (JsMap.get block_id s.blocks) s
