-- ===== src/Store/Flatten.antt =====
-- `flattenBlocks` of apps/web/src/store/block-store.ts: the blocks in the order of the tree. `walk`
-- takes fuel for its depth; `none` means that it ran out.
pub mod Height
pub mod Ends
pub mod Complete
use block_docs.Base.{
  ℕ, zero, suc, String, Option, none, some, get_or, List, [], ◌∷◌, ◌++◌, length, string_discrete,
  string_key,
}
use block_docs.JsMap
use block_docs.JsMap.{JsMap}
use block_docs.Types.{Block}
use block_docs.Store.Index.{Index, Blocks}

-- `for (const k of kids) walk(k)`, where one call that does not end is none.
unfoldable pub concat_all : (String → Option (List Block)) → List String → Option (List Block)
concat_all f [] = some []
concat_all f (k ∷ ks) = joined (f k) (concat_all f ks)
  where
    joined : Option (List Block) → Option (List Block) → Option (List Block)
    joined (some a) (some b) = some (a ++ b)
    joined a b = none

unfoldable pub visit : Option Block → Option (List Block) → Option (List Block)
visit none below = some []
visit (some b) none = none
visit (some b) (some below) = some (b ∷ below)

unfoldable pub walk : ℕ → Blocks → JsMap String (List String) → String → Option (List Block)
unfolding visit concat_all JsMap.get string_discrete
walk zero blocks children id = none
walk (suc fuel) blocks children id =
    visit (JsMap.get id blocks)
      (concat_all (walk fuel blocks children) (get_or (JsMap.get id children) []))

-- No branch of the tree is longer than there are blocks; one more is for an identifier without one.
unfoldable pub flatten_blocks? :
    List String → JsMap String (List String) → Blocks → Option (List Block)
unfolding walk concat_all
flatten_blocks? root_order children blocks =
    concat_all (walk (suc (length blocks)) blocks children) root_order

unfoldable pub flatten_blocks : List String → JsMap String (List String) → Blocks → List Block
unfolding flatten_blocks?
flatten_blocks root_order children blocks = get_or (flatten_blocks? root_order children blocks) []
