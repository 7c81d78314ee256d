-- ===== src/Store/Position.antt =====
-- `computePosition` of apps/web/src/store/block-store.ts: the rank for a block that is put after
-- `afterId` under a parent.
pub mod Between
use mathlib.Core.Option
use block_docs.Base.{
  ℕ, zero, suc, ◌+◌, ◌-◌, String, Bool, Option, none, some, List, [], ◌∷◌, ite, get_elem?, length,
  string_discrete, string_key,
}
use block_docs.Text.{Text}
use block_docs.JsMap
use block_docs.Lexorank.{midpoint}
use block_docs.Types.{Block}
use block_docs.Store.Index.{Blocks, parent_discrete}

-- `order.map((id) => blocks.get(id)).filter((b) => !!b && b.parentId === parentId)`
keep : Option String → Option Block → List Block → List Block
keep parent_id none rest = rest
keep parent_id (some b) rest = ite (parent_discrete b.parent_id parent_id) (b ∷ rest) rest

unfoldable pub siblings_in : Blocks → Option String → List String → List Block
unfolding keep JsMap.get string_discrete parent_discrete
siblings_in blocks parent_id [] = []
siblings_in blocks parent_id (id ∷ order) =
    keep parent_id (JsMap.get id blocks) (siblings_in blocks parent_id order)

-- `findIndex`, with `none` for -1.
unfoldable pub find_index : String → List Block → Option ℕ
unfolding string_discrete
find_index id [] = none
find_index id (b ∷ bs) =
    ite (string_discrete b.block_id id) (some 0) (Option.map suc (find_index id bs))

abbrev pub position? : Option Block → Option Text
position? o = Option.map (λ b. b.position) o

-- `prevPos` and `nextPos`.
pub record Gap : Type 0 where
  pub prev : Option Text
  pub next : Option Text

gap_at : List Block → Option ℕ → Gap
gap_at siblings (some idx) = record {
  prev = position? (get_elem? siblings idx);
  next = position? (get_elem? siblings (idx + 1));
}
gap_at siblings none = record {
  prev = position? (get_elem? siblings (length siblings - 1));
  next = none;
}

unfoldable pub gap_after : List Block → Option String → Gap
unfolding gap_at find_index
gap_after siblings none = record { prev = none; next = position? (get_elem? siblings 0) }
gap_after siblings (some after_id) = gap_at siblings (find_index after_id siblings)

unfoldable pub compute_position : Blocks → List String → Option String → Option String → Text
unfolding siblings_in gap_after midpoint
compute_position blocks order parent_id after_id =
    let g = gap_after (siblings_in blocks parent_id order) after_id in midpoint g.prev g.next
