-- ===== src/Editor/Tests.antt =====
-- The editor's theorems at concrete input, with a Y.Text that is its list of cells.
use mathlib.Core.List.{flatten}
use mathlib.Core.Bool.{false≢true}
use text.Mathlib.TextEquality.{eq_iff}
use block_docs.Base.{
  zero, suc, ℕ_discrete, string_discrete, ℕ, ◌+◌, ◌≡◌, refl, ap, String, true, false, Option, none,
  some, List, [], ◌∷◌, ◌++◌, map, take, length, All, arith, string_key,
}
use block_docs.JsMap
use block_docs.Text.{Text, codes, text_discrete}
use block_docs.Types.{bold, Mark, Mention, InlineNode, Attrs, Json, Block, paragraph, bulleted_list}
use block_docs.Editor.Marks.{DeltaOp, embed, text as run_text, bool as set}
use block_docs.Editor.Marks.Seed.{SeedText, Glyph, glyphs_of, taken, last_attributes, plain_text}
use block_docs.Editor.Yjs.{Buffered, ensure, empty}
use block_docs.Editor.Yjs.Early.{live, receive_all, apply_all, ensure-receive_all}
use block_docs.Editor.YText.{
  YText, Cell, char, chip, chars, splice, text_of, chips, held, delta_cells, is_cut,
}
use block_docs.Editor.YText.Splice.{length-splice}
use block_docs.Editor.Input.{
  delete_content_backward, other, Selection, on_input, on_composition_end,
}
use block_docs.Editor.View
use block_docs.Editor.View.{Event, starts, receives, ends, inputs, text_content}
use block_docs.Editor.View.Drawn.{IsSeen, run_reads}
use block_docs.Editor.Input.Edits.{Replacement, IsWithin, replaced_text, meant, on_input_replaces}
use block_docs.Editor.Input.Reconcile.{reconcile_from_dom, reconcile_from_dom_lem}
use block_docs.Editor.SlashMenu.{arrow_down, enter, opens, Session, run}
use block_docs.Editor.SlashMenu.Stuck.{IsStuck, run-IsStuck}
use block_docs.Store.{BlockStoreState, initial}
use block_docs.Store.Local.{no_content}
use block_docs.Editor.Markdown.Blocks.{
  MarkdownBlockTemplate, BlockTokens, nil, cons, list, item, end,
}
use block_docs.Editor.Markdown.Likely.{is_likely_markdown}
use block_docs.Editor.Handlers.{on_markdown_paste}
use block_docs.Editor.Handlers.Paste.Emptied.{LandsAt, on_markdown_paste_lem}
use block_docs.Editor.Renderer.{
  text_node, render_inline_nodes, set_selection_offset, get_selection_offset, text_before,
  all_texts,
}
use block_docs.Editor.Renderer.Offsets.{set_selection_offset_lem}

abbrev bob : Mention
bob = record { user_id = 7; label = codes "@bob" }

abbrev strong : List Mark
strong = record { type = bold; attrs = none } ∷ []

abbrev nodes : List InlineNode
nodes = InlineNode.text (codes "hi ") (some strong) ∷ InlineNode.mention bob ∷ []

-- A Y.Text that is only appended to.
abbrev appended : SeedText
unfolding taken
appended = record {
  State = List Glyph;
  empty = [];
  insert = λ n s o gs. gs ++ glyphs_of (taken o (last_attributes plain_text gs)) s;
  insert_embed = λ n m gs. gs ++ record { cell = chip m; attributes = plain_text } ∷ [];
  glyphs = λ gs. gs;
  glyphs-empty = refl;
  glyphs-format = λ s f gs. refl;
  glyphs-inherit = λ s gs. refl;
  glyphs-insert_embed = λ m gs. refl;
}

abbrev spreading : List InlineNode
spreading =
    InlineNode.text (codes "a") (some strong)
    ∷ InlineNode.text (codes "b") none
    ∷ InlineNode.mention bob
    ∷ InlineNode.text (codes "c") none
    ∷ []

-- A document that is the list of its updates.
abbrev log : List InlineNode → List String
log ns = []

abbrev append : String → List String → List String
append u us = us ++ u ∷ []

abbrev early : List Buffered
early = record { delta = "old"; ts = 100 } ∷ record { delta = "young"; ts = 1400 } ∷ []

ensure-receive_all_example :
    (JsMap.get "b" (ensure log append 1500 "b" [] (receive_all log append "b" early empty)).blocks
      ≡ some (apply_all log append (live 1500 early) []))
    × (JsMap.get "b" (receive_all log append "b" early (ensure log append 1500 "b" [] empty)).blocks
        ≡ some (apply_all log append early []))
unfolding JsMap.get
ensure-receive_all_example = ensure-receive_all log append 1500 "b" [] early empty refl refl

abbrev runs : List DeltaOp
runs =
    record { insert = run_text (codes "ab"); attributes = some (("bold", set true) ∷ []) }
    ∷ record { insert = run_text (codes "c"); attributes = none }
    ∷ []

abbrev cell_op : Cell → DeltaOp
cell_op (char c) = record { insert = run_text (c ∷ []); attributes = none }
cell_op (chip m) = record { insert = embed m; attributes = none }

delta_cells-map : (y : List Cell) → delta_cells (map cell_op y) ≡ y
unfolding delta_cells held
delta_cells-map [] = refl
delta_cells-map (char c ∷ y) = ap (λ l. char c ∷ l) (delta_cells-map y)
delta_cells-map (chip m ∷ y) = ap (λ l. chip m ∷ l) (delta_cells-map y)

abbrev list_text : YText
list_text = record {
  State = List Cell;
  insert = λ i t y. splice i i (chars t) y;
  delete = λ i n y. splice i (i + n) [] y;
  format = λ i n mark set y. y;
  to_delta = map cell_op;
  to_string = text_of;
  cells = λ y. y;
  to_string-cells = λ y. refl;
  to_delta-cells = delta_cells-map;
  cells-insert = λ i t y h p. refl;
  cells-delete = λ i n y h p q. refl;
  length-delete =
      λ i n y h. omega (arith, length-splice i (i + n) [] y (omega (arith, h)) (omega (arith, h)));
  cells-format = λ i n mark set y h p q. refl;
}

abbrev written : List Cell
written = char 104 ∷ char 105 ∷ chip bob ∷ []

abbrev chosen : Selection
chosen = record { start = 1; end = 3 }

-- The selection is a surrogate pair, which is deleted.
abbrev face : Text
face = 104 ∷ 55357 ∷ 56832 ∷ []

abbrev gone : Replacement
gone = record { from = 1; to = 3; text = [] }

on_input_replaces_example :
    let e = on_input list_text delete_content_backward chosen (chars face) in
    (e.text ≡ chars (replaced_text gone face)) × IsWithin e.caret (length (replaced_text gone face))
unfolding is_cut meant
on_input_replaces_example =
    on_input_replaces list_text delete_content_backward chosen (chars face) face gone refl
      (omega arith) (omega arith) (record { start = refl; end = refl; from = refl; to = refl }) refl

-- Nothing was typed, and still the label becomes text in front of the mention.
reconcile_from_dom_lem_example :
    (take 6 (reconcile_from_dom list_text false (codes "hi@bob") written) ≡ chars (codes "hi@bob"))
    × (length (reconcile_from_dom list_text false (codes "hi@bob") written) ≡ 7)
unfolding text_of chips
reconcile_from_dom_lem_example =
    reconcile_from_dom_lem list_text (codes "hi@bob") written
      (λ e. absurd (omega (arith, ap length e)))

run-IsStuck_example : (s : Session) × (run (enter ∷ arrow_down ∷ opens ∷ []) ≡ some s) × IsStuck s
run-IsStuck_example = run-IsStuck (enter ∷ arrow_down ∷ opens ∷ [])

abbrev like_json : Option Attrs → String
like_json a = "null"

abbrev template_id : ℕ → String
template_id zero = "t0"
template_id (suc zero) = "t1"
template_id n = "t2"

-- A list of one item that holds a list of one item.
abbrev lists : BlockTokens
lists =
    let inner = item false false nil end in
    cons (list false (item false false (cons (list true inner) nil) end)) nil

abbrev target : Block
target = record {
  block_id = "a";
  parent_id = none;
  position = 110 ∷ [];
  depth = 0;
  type = paragraph;
  content = no_content;
  version = 1;
}

abbrev doc : BlockStoreState
doc = record initial { blocks = ("a", target) ∷ []; root_order = "a" ∷ [] }

abbrev template : String → ℕ → MarkdownBlockTemplate
template id parent = record {
  block_id = id;
  type = bulleted_list;
  content = no_content;
  parent_index = some parent;
}

abbrev templates : List MarkdownBlockTemplate
templates = template "t0" 0 ∷ template "t1" 0 ∷ template "t2" 1 ∷ []

on_markdown_paste_lem_example :
    All
      (λ t. LandsAt none (on_markdown_paste templates (some 0) target doc).store t.parent_index t)
      templates
unfolding JsMap.get string_discrete
on_markdown_paste_lem_example =
    on_markdown_paste_lem templates (some 0) target doc (refl, tt) refl
      (
        (λ e. false≢true ((eq_iff "t1" "t0").1 e), (λ e. false≢true ((eq_iff "t2" "t0").1 e), tt)),
        ((λ e. false≢true ((eq_iff "t2" "t1").1 e), tt), (tt, tt)),
      )
      (refl, (refl, (refl, tt)))

abbrev show : ℕ → String
show n = "7"

abbrev stringify : Json → String
stringify v = ""

set_selection_offset_lem_example :
    let root = render_inline_nodes show stringify nodes in
    let c = set_selection_offset root 5 in
    (text_before (all_texts root) c ≡ codes "hi @b") × (get_selection_offset root c ≡ 5)
unfolding flatten
set_selection_offset_lem_example = set_selection_offset_lem show stringify nodes 5

-- The cases of apps/web/src/__tests__/paste-markdown.test.ts, and one of each other kind.
likely :
    map is_likely_markdown (
      map codes (
        "# heading" ∷ "- item" ∷ "plain text" ∷ "#no heading" ∷ "a **b** c" ∷ "a ** b" ∷ "2. two"
        ∷ "[a](b)" ∷ "[](b)" ∷ []))
    ≡ true ∷ true ∷ false ∷ false ∷ true ∷ false ∷ true ∷ true ∷ false ∷ []
unfolding is_likely_markdown
likely = refl

-- An update of another client that comes while `a` is composed is drawn at the end; then the browser
-- writes by itself.
abbrev composition : List (Event (List Cell))
composition =
    inputs (some 0) none other (text_node (codes "ho") ∷ [])
    ∷ ends (some 1) (codes "a")
    ∷ receives (λ y. y ++ char 33 ∷ [])
    ∷ starts
    ∷ []

run_reads_example :
    text_content (View.run show stringify list_text (chars (codes "hi")) composition).dom
    ≡ list_text.to_string (View.run show stringify list_text (chars (codes "hi")) composition).text
unfolding View.run View.step View.drawn_if View.take_input View.write_native IsSeen
    on_composition_end reconcile_from_dom text_content chips text_of View.observe text_discrete
    ℕ_discrete
run_reads_example =
    run_reads show stringify list_text (chars (codes "hi")) composition
      (tt, refl, (tt, refl, (tt, refl, (tt, refl, refl)))) refl
