-- ===== src/Store/Tests.antt =====
-- A small document, runs of the store's actions on it, and the store's theorems at concrete input.
use mathlib.Core.Bool.{false≢true}
use text.Mathlib.TextEquality.{eq_iff}
use block_docs.Base.{
  All, ℕ, ◌≡◌, refl, String, Option, none, some, List, [], ◌∷◌, arith, string_key, string_discrete,
}
use block_docs.JsMap
use block_docs.Lexorank.{scan}
use block_docs.Types.{Block, paragraph}
use block_docs.Store.{BlockStoreState, initial, name}
use block_docs.Store.Flatten.{flatten_blocks?, flatten_blocks}
use block_docs.Store.Flatten.Ends.{flatten_blocks-ends}
use block_docs.Store.Flatten.Complete.{In, flatten_blocks_complete}
use block_docs.Store.Index.{Blocks, rebuild_index, position_in}
use block_docs.Store.Index.Laws.{order_under, under, rebuild_index_lem}
use block_docs.Sort.{sort}
use block_docs.Store.Queue.{load_snapshot}
use block_docs.Store.Local.{
  InsertOptions, Target, no_content, insert_block, delete_block, delete_op, move_block, moved,
  move_op,
}
use block_docs.Store.Remote.Converge.{Queues, heard, delete_block_diverges, heard-move_block}
use block_docs.Store.Position.{siblings_in, find_index, compute_position}
use block_docs.Store.Position.Between.{Splits, compute_position-Splits}
use block_docs.Store.Invariant.{inserts, deletes, step, IsConsistent}
use block_docs.Store.Invariant.Step.{run, run-IsConsistent, step-IsConsistent}

abbrev block : String → Option String → ℕ → Block
block id parent rank = record {
  block_id = id;
  parent_id = parent;
  position = rank ∷ [];
  depth = 0;
  type = paragraph;
  content = no_content;
  version = 1;
}

-- `a` and `d` at the root, `b` under `a`, `c` under `b`.
abbrev tree : List Block
tree =
    block "d" none b't'
    ∷ block "a" none b'h'
    ∷ block "b" (some "a") b'n'
    ∷ block "c" (some "b") b'n'
    ∷ []

abbrev doc : BlockStoreState
doc = load_snapshot (name "doc") tree "0-0" initial

doc_order : doc.root_order ≡ "a" ∷ "d" ∷ []
unfolding load_snapshot
doc_order = refl

abbrev after_a : InsertOptions
after_a = record { after_id = some "a"; parent_id = none; content = none; block_id = none }

insert_order : (insert_block paragraph after_a "x" doc).0.root_order ≡ "a" ∷ "x" ∷ "d" ∷ []
unfolding load_snapshot insert_block scan
insert_order = refl

delete_order : (delete_block "a" doc).root_order ≡ "b" ∷ "d" ∷ []
unfolding load_snapshot delete_block
delete_order = refl

run-IsConsistent_example :
    IsConsistent (run initial (inserts paragraph after_a "x" ∷ deletes "x" ∷ []))
run-IsConsistent_example = run-IsConsistent (inserts paragraph after_a "x" ∷ deletes "x" ∷ [])

doc-IsConsistent : IsConsistent doc
unfolding load_snapshot JsMap.get string_discrete
doc-IsConsistent = record {
  indexed = refl;
  distinct = (refl, (refl, (refl, (refl, tt))));
  queued = omega arith;
}

step-IsConsistent_example : IsConsistent (step doc (deletes "a"))
step-IsConsistent_example = step-IsConsistent doc (deletes "a") doc-IsConsistent

rebuild_index_lem_example :
    order_under (some "a") (rebuild_index doc.blocks)
    ≡ sort (position_in doc.blocks) (under (some "a") (JsMap.values doc.blocks))
rebuild_index_lem_example = rebuild_index_lem doc.blocks (some "a")

compute_position-Splits_example :
    Splits 1
      (siblings_in doc.blocks none doc.root_order)
      (compute_position doc.blocks doc.root_order none (some "a"))
unfolding load_snapshot siblings_in string_discrete find_index
compute_position-Splits_example =
    compute_position-Splits doc.blocks doc.root_order none (some "a") (omega arith)

abbrev block_a : Block
block_a = block "a" none b'h'

abbrev block_b : Block
block_b = block "b" (some "a") b'n'

delete_block_diverges_example :
    (JsMap.get "c" (delete_block "b" doc).blocks ≡ some (block "c" (some "a") b'n'))
    × (JsMap.get "c" (heard doc (delete_op "b" block_b)) ≡ some (block "c" none b'n'))
unfolding load_snapshot JsMap.get string_discrete
delete_block_diverges_example =
    delete_block_diverges doc "b" block_b refl "a" "c" (block "c" (some "b") b'n')
      (refl, (refl, (refl, (refl, tt)))) refl (λ e. false≢true ((eq_iff "c" "b").1 e)) refl refl

abbrev to_root : Target
to_root = record { parent_id = none; after_id = some "a" }

heard-move_block_example :
    let next = moved to_root block_b doc in
    let op = move_op "b" to_root block_b next.position in
    Queues doc op (move_block "b" to_root doc)
    × ((move_block "b" to_root doc).blocks ≡ JsMap.set "b" next doc.blocks)
    × (heard doc op ≡ JsMap.set "b" (record next { depth = 0 }) doc.blocks)
unfolding load_snapshot JsMap.get string_discrete
heard-move_block_example = heard-move_block doc "b" block_b refl to_root

-- A block at the root, and two that are each the other's parent.
abbrev loop : Blocks
loop =
    ("a", block "a" none b'h')
    ∷ ("x", block "x" (some "y") b'n')
    ∷ ("y", block "y" (some "x") b'n')
    ∷ []

flatten_blocks-ends_example :
    (out : List Block) × (flatten_blocks?
        (rebuild_index loop).root_order
        (rebuild_index loop).children_map
        loop
      ≡ some out)
    × All (λ b. JsMap.get b.block_id loop ≡ some b) out
unfolding JsMap.get string_discrete
flatten_blocks-ends_example =
    flatten_blocks-ends loop (refl, (refl, (refl, tt))) (refl, (refl, (refl, tt)))

listed :
    flatten_blocks (rebuild_index loop).root_order (rebuild_index loop).children_map loop
    ≡ block "a" none b'h' ∷ []
unfolding flatten_blocks rebuild_index string_discrete
listed = refl

abbrev nested : Blocks
nested = ("b", block "b" (some "a") b'n') ∷ ("a", block "a" none b'h') ∷ []

flatten_blocks_complete_example :
    (out : List Block) × (flatten_blocks?
        (rebuild_index nested).root_order
        (rebuild_index nested).children_map
        nested
      ≡ some out)
    × In (block "b" (some "a") b'n') out
unfolding JsMap.get string_discrete
flatten_blocks_complete_example =
    flatten_blocks_complete nested (refl, (refl, tt)) (refl, (refl, tt)) 1 "b"
      (block "b" (some "a") b'n')
      (block "b" (some "a") b'n', "a", refl, refl, (block "a" none b'h', refl, refl)) refl
