-- ===== src/Editor/Input.antt =====
-- The input handlers of apps/web/src/components/editor/ContentEditableBlock.tsx. What the DOM says of
-- the selection is the input: the caret's offset, if it is in the block, and the range, if one is
-- selected. A handler's effect is the text, the caret that is set after rendering, and the callback
-- that is called.
pub mod Edits
pub mod Reconcile
use block_docs.Base.{
  ℕ, zero, suc, ◌+◌, ◌-◌, ◌≤◌, ◌≡◌, String, Bool, true, false, not, ◌&&◌, Option, none, some,
  get_or, List, [], ◌∷◌, length, ltb, ◌==◌, if◌then◌else◌,
}
use block_docs.Text.{Text}
use block_docs.Types.{MarkType}
use block_docs.Editor.YText.{YText}
use block_docs.Editor.Markdown.Blocks.{MarkdownBlockTemplate}
use block_docs.Editor.Markdown.Likely.{is_likely_markdown}
use block_docs.Editor.Toggle.{all_have, toggle_value}

pub data InputType : Type 0 where
  insert_text : (text : Option Text) → InputType
  insert_paragraph insert_line_break insert_from_paste : InputType
  delete_content_backward delete_content_forward : InputType
  format : MarkType → InputType
  other : InputType

pub data Callback : Type 0 where
  on_enter on_backspace_at_empty on_backspace_at_start on_slash on_arrow_up on_arrow_down : Callback

-- From `start` up to `end`.
pub record Selection : Type 0 where
  pub start : ℕ
  pub end : ℕ

pub record Range : Type 0 where
  pub start : ℕ
  pub length : ℕ

-- `selStart` and `selEnd`; a range that is collapsed is none.
unfoldable pub selection : ℕ → Option Range → Selection
selection offset none = record { start = offset; end = offset }
selection offset (some r) = record { start = r.start; end = r.start + r.length }

pub record Effect (State : Type 0) : Type 0 where
  pub text : State
  pub caret : Option ℕ
  pub callback : Option Callback

pub data Pasted (State : Type 0) : Type 0 where
  ignored : Pasted State
  as_blocks : List MarkdownBlockTemplate → Pasted State
  as_text : Effect State → Pasted State

module _ (Y : YText) where
  open Y use {State}

  abbrev text_size : State → ℕ
  text_size y = length (Y.cells y)

  abbrev nothing : State → Effect State
  nothing y = record { text = y; caret = none; callback = none }

  abbrev calls : Callback → State → Effect State
  calls f y = record { text = y; caret = none; callback = some f }

  abbrev edited : State → ℕ → Effect State
  edited y caret = record { text = y; caret = some caret; callback = none }

  -- `if (selEnd > selStart) yText.delete(selStart, selEnd - selStart)`
  delete_selection : Selection → State → State
  delete_selection s y = if ltb s.start s.end then Y.delete s.start (s.end - s.start) y else y

  unfoldable pub backspace : ℕ → State → Effect State
  backspace zero y =
      if text_size y == 0 then calls on_backspace_at_empty y else calls on_backspace_at_start y
  backspace (suc n) y = edited (Y.delete n 1 y) n

  formatted : Option Bool → MarkType → Selection → State → State
  formatted none mark s y = y
  formatted (some set) mark s y = Y.format s.start (s.end - s.start) mark set y

  -- The `switch` over `inputType`. `data ?? ""`.
  unfoldable pub on_input : InputType → Selection → State → Effect State
  unfolding delete_selection backspace formatted toggle_value
  on_input (insert_text text) s y =
      let t = get_or text [] in
      edited (Y.insert s.start t (delete_selection s y)) (s.start + length t)
  on_input insert_paragraph s y = calls on_enter y
  on_input insert_line_break s y =
      edited (Y.insert s.start (10 ∷ []) (delete_selection s y)) (s.start + 1)
  on_input delete_content_backward s y =
      if ltb s.start s.end
      then edited (Y.delete s.start (s.end - s.start) y) s.start
      else backspace s.start y
  on_input delete_content_forward s y =
      edited
        (if ltb s.start s.end
          then Y.delete s.start (s.end - s.start) y
          else if ltb s.start (text_size y)
          then Y.delete s.start 1 y
          else y)
        s.start
  on_input (format mark) s y =
      edited (formatted (toggle_value mark s.start s.end (Y.to_delta y)) mark s y) s.end
  on_input insert_from_paste s y = nothing y
  on_input other s y = nothing y

  -- `toggleMark` of the handle that the toolbar has, which formats also a range of length 0.
  unfoldable pub toggle_mark : MarkType → Option ℕ → Option Range → State → State
  unfolding all_have
  toggle_mark mark (some start) (some r) y =
      Y.format r.start r.length mark
        (not (all_have mark r.start (r.start + r.length) 0 (Y.to_delta y))) y
  toggle_mark mark offset range y = y

  unfoldable pub at_offset : Option ℕ → Option Range → InputType → State → Effect State
  unfolding on_input selection
  at_offset none range type y = nothing y
  at_offset (some offset) range type y = on_input type (selection offset range) y

  unfoldable pub handle_before_input :
      (is_composing : Bool) → Option ℕ → Option Range → InputType → State → Effect State
  unfolding at_offset
  handle_before_input true offset range type y = nothing y
  handle_before_input false offset range type y = at_offset offset range type y

  -- `handlePaste` where the text is not taken for Markdown, and the end of a composition.
  unfoldable pub paste_plain : Option ℕ → Option Range → Text → State → Effect State
  unfolding delete_selection selection
  paste_plain offset range text y =
      let s = selection (get_or offset (text_size y)) range in
      edited (Y.insert s.start text (delete_selection s y)) (s.start + length text)

  -- `mdText || getData("text/plain")`
  clipboard_text : Text → Text → Text
  clipboard_text [] plain = plain
  clipboard_text (c ∷ t) plain = c ∷ t

  -- `!!mdText || isLikelyMarkdown(text)`
  is_treated_as_markdown : Text → Text → Bool
  unfolding is_likely_markdown
  is_treated_as_markdown [] text = is_likely_markdown text
  is_treated_as_markdown (c ∷ t) text = true

  -- The templates that are handed on, if any, or a plain paste.
  pasted : List MarkdownBlockTemplate → Option ℕ → Option Range → Text → State → Pasted State
  unfolding paste_plain
  pasted [] offset range text y = as_text (paste_plain offset range text y)
  pasted (t ∷ ts) offset range text y = as_blocks (t ∷ ts)

  -- `handlePaste`, with `to_blocks` for `markdownToBlocks`.
  unfoldable pub handle_paste :
      (Text → List MarkdownBlockTemplate)
      → Option ℕ
      → Option Range
      → (markdown plain : Text) → State
      → Pasted State
  unfolding clipboard_text is_treated_as_markdown pasted
  handle_paste to_blocks offset range markdown plain y =
      let text = clipboard_text markdown plain in
      let templates = if is_treated_as_markdown markdown text then to_blocks text else [] in
      if length text == 0 then ignored else pasted templates offset range text y

  unfoldable pub on_composition_end : Option ℕ → Text → State → Effect State
  on_composition_end none composed y = nothing y
  on_composition_end (some offset) composed y =
      let at = offset - length composed in edited (Y.insert at composed y) (at + length composed)

-- The keys that `handleKeyDown` looks at.
pub data Key : Type 0 where
  enter : (shift : Bool) → Key
  slash arrow_up arrow_down other_key : Key

module _ (Y : YText) where
  unfoldable pub on_key_down : (is_composing : Bool) → Option ℕ → Key → Y.State → Option Callback
  on_key_down composing offset (enter shift) y =
      if not shift && not composing then some on_enter else none
  on_key_down composing offset slash y = if length (Y.cells y) == 0 then some on_slash else none
  on_key_down composing offset arrow_up y = if get_or offset 0 == 0 then some on_arrow_up else none
  on_key_down composing offset arrow_down y =
      if get_or offset 0 == length (Y.cells y) then some on_arrow_down else none
  on_key_down composing offset other_key y = none
