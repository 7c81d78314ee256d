-- ===== src/Store/Index/Laws.antt =====
-- The index of apps/web/src/store/block-store.ts against a listing of the blocks by their parents.
use mathlib.Core.List.{Perm, append-nil}
use block_docs.Base.{
  ◌≡◌, refl, sym, ap, ◌∙◌, String, Option, none, some, List, [], ◌∷◌, ◌++◌, ite, if_pos, if_neg,
  append_assoc, arith, string_discrete, string_key,
}
use block_docs.JsMap
use block_docs.JsMap.{JsMap}
use block_docs.JsMap.Laws.{get-set, get-map_values}
use block_docs.Text.{Text}
use block_docs.Sort.{sort}
use block_docs.Sort.Laws.{IsSorted, sort-IsSorted, sort-perm}
use block_docs.Types.{Block}
use block_docs.Store.Index.{
  Index, Blocks, position_in, or_nil, add_child, file, file_all, no_index, sort_index,
  rebuild_index, parent_discrete,
}

-- The identifiers under a parent, `none` for the root.
abbrev pub order_under : Option String → Index → List String
order_under none idx = idx.root_order
order_under (some p) idx = or_nil (JsMap.get p idx.children_map)

-- The blocks with a given parent, in the order of the map.
unfoldable pub under : Option String → List Block → List String
unfolding parent_discrete
under parent [] = []
under parent (b ∷ bs) =
    ite (parent_discrete b.parent_id parent) (b.block_id ∷ under parent bs) (under parent bs)

or_nil-add_child :
    (p q id : String) (m : JsMap String (List String))
    → or_nil (JsMap.get p (add_child q id m))
      ≡ ite (string_discrete q p) (or_nil (JsMap.get q m) ++ id ∷ []) (or_nil (JsMap.get p m))
unfolding add_child
or_nil-add_child p q id m = ground (arith, get-set p q (or_nil (JsMap.get q m) ++ id ∷ []) m)

order_under-file :
    (parent own : Option String) (id : String) (idx : Index) (rest : List String)
    → order_under parent (file own id idx) ++ rest
      ≡ order_under parent idx ++ ite (parent_discrete own parent) (id ∷ rest) rest
unfolding file
order_under-file none none id idx rest =
    rw (if_pos (parent_discrete none none) refl) (append_assoc idx.root_order (id ∷ []) rest)
order_under-file none (some q) id idx rest = rw (if_neg (parent_discrete (some q) none) (λ e. cc))
order_under-file (some p) none id idx rest = rw (if_neg (parent_discrete none (some p)) (λ e. cc))
order_under-file (some p) (some q) id idx rest = elim (string_discrete q p) [
  | yes e ↦ rw (if_pos (parent_discrete (some q) (some p)) (ap some e)) (
      rw (or_nil-add_child p q id idx.children_map, if_pos (string_discrete q p) e, e)
        (append_assoc _ (id ∷ []) rest))
  | no n ↦
      rw (if_neg (parent_discrete (some q) (some p)) (λ e. n (cc)))
        (rw (or_nil-add_child p q id idx.children_map, if_neg (string_discrete q p) n))
]

order_under-file_all :
    (parent : Option String) (bs : List Block) (idx : Index)
    → order_under parent (file_all bs idx) ≡ order_under parent idx ++ under parent bs
unfolding file_all under
order_under-file_all parent [] idx = sym (append-nil _)
order_under-file_all parent (b ∷ bs) idx =
    order_under-file_all parent bs (file b.parent_id b.block_id idx)
    ∙ order_under-file parent b.parent_id b.block_id idx (under parent bs)

order_under-sort_index :
    (key : String → Text) (parent : Option String) (idx : Index)
    → order_under parent (sort_index key idx) ≡ sort key (order_under parent idx)
unfolding sort
order_under-sort_index key none idx = refl
order_under-sort_index key (some p) idx =
    ground (arith, get-map_values (sort key) p idx.children_map)

order_under-no_index :
    (parent : Option String) (rest : List String) → order_under parent no_index ++ rest ≡ rest
unfolding JsMap.get
order_under-no_index none rest = refl
order_under-no_index (some p) rest = refl

-- Under every parent, `rebuildIndex` lists exactly the blocks with that parent, sorted by position
-- and otherwise in the order of the map.
pub rebuild_index_lem :
    (blocks : Blocks) (parent : Option String)
    → order_under parent (rebuild_index blocks)
      ≡ sort (position_in blocks) (under parent (JsMap.values blocks))
unfolding rebuild_index
rebuild_index_lem blocks parent =
    order_under-sort_index (position_in blocks) parent (file_all (JsMap.values blocks) no_index)
    ∙ ap (sort (position_in blocks))
        (order_under-file_all parent (JsMap.values blocks) no_index ∙ order_under-no_index parent _)

-- So the list is in order of position, and a permutation of the blocks with that parent.
pub rebuild_index-IsSorted :
    (blocks : Blocks) (parent : Option String)
    → IsSorted (position_in blocks) (order_under parent (rebuild_index blocks))
      × Perm (order_under parent (rebuild_index blocks)) (under parent (JsMap.values blocks))
rebuild_index-IsSorted blocks parent = rw (rebuild_index_lem blocks parent) (
  sort-IsSorted (position_in blocks) (under parent (JsMap.values blocks)),
  sort-perm (position_in blocks) (under parent (JsMap.values blocks)),
)
