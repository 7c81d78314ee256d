-- ===== src/Editor/Handlers.antt =====
-- The handlers of a block in apps/web/src/components/editor/BlockEditor.tsx. `ordered` is the list
-- of blocks that was rendered and `index` the block's place in it. A handler gives the next store and
-- the block that is focused, at once or in the next frame.
pub mod Paste
use block_docs.Base.{
  ℕ, zero, suc, ◌+◌, String, Bool, true, false, Option, none, some, get_or, List, [], ◌∷◌,
  get_elem?, ◌==◌, if◌then◌else◌,
}
use block_docs.Types.{
  BlockType, heading, paragraph, bulleted_list, numbered_list, todo, BlockContent, Block, num, bool,
}
use block_docs.Store.{BlockStoreState}
use block_docs.Store.Local.{InsertOptions, insert_block, delete_block}
use block_docs.Store.Queue.{set_focused_block_id}
use block_docs.Editor.Markdown.Blocks.{MarkdownBlockTemplate}

pub data Place : Type 0 where
  at_start at_end : Place

pub data Focus : Type 0 where
  stays : Focus
  now next_frame : String → Place → Focus

pub record Outcome : Type 0 where
  pub store : BlockStoreState
  pub focus : Focus

-- `focusBlock`, at once.
focus_block : Option Block → Place → BlockStoreState → Outcome
unfolding set_focused_block_id
focus_block none place s = record { store = s; focus = stays }
focus_block (some b) place s = record {
  store = set_focused_block_id (some b.block_id) s;
  focus = now b.block_id place;
}

-- `ordered[index - 1]`
previous : List Block → ℕ → Option Block
previous ordered zero = none
previous ordered (suc i) = get_elem? ordered i

continued : BlockType → BlockType
continued bulleted_list = bulleted_list
continued numbered_list = numbered_list
continued todo = todo
continued _ = paragraph

-- An insertion that is focused in the next frame.
focus_inserted : Place → BlockStoreState × String → Outcome
focus_inserted place r = record { store = r.0; focus = next_frame r.1 place }

unfoldable pub on_enter : Block → String → BlockStoreState → Outcome
unfolding continued focus_inserted insert_block
on_enter block fresh s =
    let opts : InsertOptions = record {
      after_id = some block.block_id;
      parent_id = block.parent_id;
      content = none;
      block_id = none;
    } in
    focus_inserted at_start (insert_block (continued block.type) opts fresh s)

unfoldable pub on_backspace_at_empty : List Block → ℕ → Block → BlockStoreState → Outcome
unfolding previous focus_block delete_block
on_backspace_at_empty ordered index block s =
    focus_block (previous ordered index) at_end (delete_block block.block_id s)

-- `onBackspaceAtStart` and `onArrowUp`.
unfoldable pub on_arrow_up : List Block → ℕ → BlockStoreState → Outcome
unfolding previous focus_block
on_arrow_up ordered index s = focus_block (previous ordered index) at_end s

unfoldable pub on_arrow_down : List Block → ℕ → BlockStoreState → Outcome
unfolding focus_block
on_arrow_down ordered index s = focus_block (get_elem? ordered (index + 1)) at_start s

-- `(t.parentIndex ?? 0) === 0`
unfoldable pub is_root : Option ℕ → Bool
is_root parent = get_or parent 0 == 0

unfoldable pub root_templates : List MarkdownBlockTemplate → List MarkdownBlockTemplate
unfolding is_root
root_templates [] = []
root_templates (t ∷ ts) =
    let rest = root_templates ts in if is_root t.parent_index then t ∷ rest else rest

abbrev pub template_options : Option String → String → MarkdownBlockTemplate → InsertOptions
template_options parent after t = record {
  after_id = some after;
  parent_id = parent;
  content = some t.content;
  block_id = some t.block_id;
}

unfoldable pub insert_templates :
    Option String → List MarkdownBlockTemplate → String → BlockStoreState → BlockStoreState
unfolding insert_block
insert_templates parent [] after s = s
insert_templates parent (t ∷ ts) after s =
    let r = insert_block t.type (template_options parent after t) t.block_id s in
    insert_templates parent ts r.1 r.0

-- `if (bd && bd.text.length === 0) deleteBlock(block.blockId)`
unfoldable pub delete_empty : Option ℕ → String → BlockStoreState → BlockStoreState
unfolding delete_block
delete_empty (some zero) id s = delete_block id s
delete_empty size id s = s

focus_first : List MarkdownBlockTemplate → Focus
focus_first [] = stays
focus_first (t ∷ ts) = next_frame t.block_id at_end

-- `size` is the length of the block's text, if its document is there.
unfoldable pub on_markdown_paste :
    List MarkdownBlockTemplate → Option ℕ → Block → BlockStoreState → Outcome
unfolding root_templates insert_templates delete_empty focus_first
on_markdown_paste [] size block s = record { store = s; focus = stays }
on_markdown_paste (t ∷ ts) size block s =
    let roots = root_templates (t ∷ ts) in
    record {
      store =
          delete_empty size block.block_id
            (insert_templates block.parent_id roots block.block_id s);
      focus = focus_first roots;
    }

-- What the slash menu's choice is inserted with.
picked_content : BlockType → Option ℕ → BlockContent
picked_content heading level = record {
  children = some [];
  attrs = some (("level", num (get_or level 1)) ∷ []);
}
picked_content todo level = record {
  children = some [];
  attrs = some (("checked", bool false) ∷ []);
}
picked_content _ level = record { children = some []; attrs = none }

unfoldable pub on_pick : Option String → BlockType → Option ℕ → String → BlockStoreState → Outcome
unfolding picked_content focus_inserted insert_block
on_pick none type level fresh s = record { store = s; focus = stays }
on_pick (some anchor) type level fresh s =
    let opts : InsertOptions = record {
      after_id = some anchor;
      parent_id = none;
      content = some (picked_content type level);
      block_id = none;
    } in
    focus_inserted at_end (insert_block type opts fresh s)
