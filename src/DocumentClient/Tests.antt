-- ===== src/DocumentClient/Tests.antt =====
-- The theorems about the joined client at concrete input.
use mathlib.Core.Bool.{false≢true}
use mathlib.Core.Option
use text.Mathlib.TextEquality.{eq_iff}
use block_docs.Base.{
  ℕ, ◌+◌, ◌≤◌, ◌≡◌, refl, String, true, none, some, List, [], ◌∷◌, ◌++◌, length, string_key,
}
use block_docs.JsMap
use block_docs.Types.{Block, paragraph, InlineNode}
use block_docs.Store.{BlockStoreState, Pending, initial, name}
use block_docs.Store.Local.{no_content}
use block_docs.Editor.Yjs.{empty}
use block_docs.Editor.Markdown.Blocks.{MarkdownBlockTemplate}
use block_docs.Editor.Handlers.{is_root, root_templates, on_markdown_paste}
use block_docs.DocumentClient.{DocumentClient, edit, snapshot, load_initial}
use block_docs.DocumentClient.Pasting.{paste_sends_one}
use block_docs.DocumentClient.Loading.{doc_of, load_initial_docs}

-- A document that is the list of its updates.
abbrev log : List InlineNode → List String
log ns = []

abbrev append : String → List String → List String
append u us = us ++ u ∷ []

abbrev block : String → ℕ → Block
block id rank = record {
  block_id = id;
  parent_id = none;
  position = rank ∷ [];
  depth = 0;
  type = paragraph;
  content = no_content;
  version = 1;
}

abbrev batch : ℕ → Pending
batch seq = record { client_seq = seq; ops = [] }

abbrev open_client : DocumentClient (List String)
open_client = record {
  store = record initial { pending_ops = batch 1 ∷ batch 2 ∷ [] };
  yjs = empty;
  is_open = true;
  sent = [];
}

abbrev template : String → MarkdownBlockTemplate
template id = record {
  block_id = id;
  type = paragraph;
  content = no_content;
  parent_index = some 0;
}

paste_sends_one_example :
    let ts = template "t1" ∷ template "t2" ∷ [] in
    let change : BlockStoreState → BlockStoreState =
      λ s. (on_markdown_paste (template "t0" ∷ ts) none (block "a" 110) s).store in
    let next = edit change open_client in
    (2 + length (root_templates (template "t0" ∷ ts)) ≤ length next.store.pending_ops)
    × (length next.sent ≡ 0 + 1)
unfolding is_root
paste_sends_one_example =
    paste_sends_one (template "t0") (template "t1" ∷ template "t2" ∷ []) none (block "a" 110)
      open_client refl refl

load_initial_docs_example :
    let bs = block "a" 104 ∷ block "b" 110 ∷ [] in
    let next = load_initial log append 0 (snapshot (name "d") bs "0-0") open_client in
    JsMap.get "b" next.yjs.blocks ≡ Option.map (doc_of log append) (JsMap.get "b" next.store.blocks)
load_initial_docs_example =
    load_initial_docs log append 0 (name "d") (block "a" 104 ∷ block "b" 110 ∷ []) "0-0" open_client
      "b" ((λ e. false≢true ((eq_iff "b" "a").1 e), tt), (tt, tt))
