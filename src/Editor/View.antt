-- ===== src/Editor/View.antt =====
-- What an editable block of apps/web/src/components/editor/ContentEditableBlock.tsx shows: the DOM
-- that its handlers draw from the block's `Y.Text`, and the DOM that the browser writes by itself
-- where `handleBeforeInput` does not prevent it. The `input` event then takes the DOM's text over
-- into the text and draws nothing; it does nothing while the input method composes. An input comes
-- as the event that `handleBeforeInput` reads.
pub mod Drawn
use mathlib.Core.List.{flatten}
use block_docs.Base.{ℕ, String, Bool, true, false, Option, none, some, List, [], ◌∷◌, if◌then◌else◌}
use block_docs.Text.{Text}
use block_docs.Types.{Json, MarkType}
use block_docs.Editor.Marks.{read_inline_nodes}
use block_docs.Editor.Input.Reconcile.{reconcile_from_dom}
use block_docs.Editor.Renderer.{Node, all_texts, render_inline_nodes}
use block_docs.Editor.YText.{YText}
use block_docs.Editor.Input.{
  InputType, other, Range, Effect, handle_before_input, toggle_mark, paste_plain,
  on_composition_end,
}

pub record View (State : Type 0) : Type 0 where
  pub dom : List Node
  pub is_composing : Bool
  pub text : State

pub data Event (State : Type 0) : Type 0 where
  mounts starts : Event State
  receives : (update : State → State) → Event State
  ends : Option ℕ → Text → Event State
  inputs : Option ℕ → Option Range → InputType → (native : List Node) → Event State
  toggles : MarkType → Option ℕ → Option Range → Event State
  pastes : Option ℕ → Option Range → Text → Event State

-- `root.textContent`
unfoldable pub text_content : List Node → Text
unfolding all_texts flatten
text_content dom = flatten (all_texts dom)

-- Whether `handleBeforeInput` gets to a case with `preventDefault`.
unfoldable pub is_prevented : (is_composing : Bool) → Option ℕ → InputType → Bool
is_prevented true offset type = false
is_prevented false none type = false
is_prevented false (some offset) other = false
is_prevented false (some offset) type = true

module _ (show : ℕ → String) (stringify : Json → String) (Y : YText) where
  -- `renderInlineNodes(root, readInlineNodes(yText))`
  unfoldable pub draw : Y.State → List Node
  draw y = render_inline_nodes show stringify (read_inline_nodes (Y.to_delta y))

  abbrev pub drawn : Y.State → View Y.State → View Y.State
  drawn y v = record v { text = y; dom = draw y }

  -- A handler draws and sets the caret, or does neither.
  unfoldable pub drawn_if : Option ℕ → Y.State → View Y.State → View Y.State
  unfolding draw
  drawn_if none y v = record v { text = y }
  drawn_if (some caret) y v = drawn y v

  -- The observer of remote updates.
  unfoldable pub observe : Bool → View Y.State → View Y.State
  unfolding draw
  observe true v = v
  observe false v = drawn v.text v

  -- The browser writes, and the `input` event follows.
  unfoldable pub write_native : List Node → View Y.State → View Y.State
  unfolding text_content reconcile_from_dom
  write_native dom v = record v {
    dom = dom;
    text = reconcile_from_dom Y v.is_composing (text_content dom) v.text;
  }

  unfoldable pub take_input :
      Bool → Option ℕ → Option Range → InputType → List Node → View Y.State → View Y.State
  unfolding drawn_if write_native handle_before_input
  take_input true offset range type native v =
      let e = handle_before_input Y v.is_composing offset range type v.text in
      drawn_if e.caret e.text v
  take_input false offset range type native v = write_native native v

  -- `toggleMark` returns early without a selection.
  unfoldable pub toggle : MarkType → Option ℕ → Option Range → View Y.State → View Y.State
  unfolding draw toggle_mark
  toggle mark (some start) (some r) v = drawn (toggle_mark Y mark (some start) (some r) v.text) v
  toggle mark offset range v = v

  unfoldable pub step : View Y.State → Event Y.State → View Y.State
  unfolding draw drawn_if observe take_input is_prevented toggle paste_plain on_composition_end
  step v mounts = drawn v.text v
  step v starts = record v { is_composing = true }
  step v (receives update) = observe v.is_composing (record v { text = update v.text })
  step v (ends offset composed) =
      let e = on_composition_end Y offset composed v.text in
      drawn_if e.caret e.text (record v { is_composing = false })
  step v (inputs offset range type native) =
      take_input (is_prevented v.is_composing offset type) offset range type native v
  step v (toggles mark offset range) = toggle mark offset range v
  step v (pastes offset range text) =
      let e = paste_plain Y offset range text v.text in drawn_if e.caret e.text v

  -- A block that is mounted with a text, and what comes after; the last event is the head.
  unfoldable pub run : Y.State → List (Event Y.State) → View Y.State
  unfolding step
  run y [] = record { dom = draw y; is_composing = false; text = y }
  run y (e ∷ es) = step (run y es) e
