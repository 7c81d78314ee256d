-- ===== src/Store/Index.antt =====
-- `rebuildIndex` of apps/web/src/store/block-store.ts: the order of the blocks under each parent.
pub mod Laws
use block_docs.Base.{
  ℕ, zero, suc, String, Option, none, some, get_or, List, [], ◌∷◌, ◌++◌, string_discrete,
  Option_discrete, string_key,
}
use block_docs.Text.{Text}
use block_docs.JsMap
use block_docs.JsMap.{JsMap}
use block_docs.Sort.{sort}
use block_docs.Types.{Block}

pub record Index : Type 0 where
  pub root_order : List String
  pub children_map : JsMap String (List String)

abbrev pub Blocks : Type 0
Blocks = JsMap String Block

-- `===` on parents.
unfoldable pub parent_discrete : Discrete (Option String)
unfolding string_discrete Option_discrete
parent_discrete = Option_discrete string_discrete

-- `blocks.get(id)?.position ?? ""`, by which `byPos` compares.
abbrev pub position_of : Option Block → Text
position_of none = []
position_of (some b) = b.position

unfoldable pub position_in : Blocks → String → Text
unfolding JsMap.get string_discrete
position_in blocks id = position_of (JsMap.get id blocks)

abbrev pub or_nil {ℓ} : {A : Type ℓ} → Option (List A) → List A
or_nil o = get_or o []

unfoldable pub add_child : String → String → JsMap String (List String) → JsMap String (List String)
unfolding JsMap.get JsMap.set string_discrete
add_child p id m = JsMap.set p (or_nil (JsMap.get p m) ++ id ∷ []) m

unfoldable pub file : Option String → String → Index → Index
unfolding add_child
file none id idx = record idx { root_order = idx.root_order ++ id ∷ [] }
file (some p) id idx = record idx { children_map = add_child p id idx.children_map }

unfoldable pub file_all : List Block → Index → Index
unfolding file
file_all [] idx = idx
file_all (b ∷ bs) idx = file_all bs (file b.parent_id b.block_id idx)

abbrev pub no_index : Index
no_index = record { root_order = []; children_map = [] }

abbrev pub sort_index : (String → Text) → Index → Index
sort_index key idx = record {
  root_order = sort key idx.root_order;
  children_map = JsMap.map_values (sort key) idx.children_map;
}

unfoldable pub rebuild_index : Blocks → Index
unfolding file_all position_in sort JsMap.map_values
rebuild_index blocks = sort_index (position_in blocks) (file_all (JsMap.values blocks) no_index)
