-- ===== src/Editor/View/Drawn.antt =====
-- What the block shows reads as its text.
use mathlib.Core.Bool.{false≢true}
use mathlib.Core.List.{flatten}
use block_docs.Base.{
  arith, ◌++◌, ◌+◌, map, ap₂, ℕ, zero, suc, String, Bool, true, false, Option, none, some, List, [],
  ◌∷◌, ◌≡◌, refl, sym, ap, ◌∙◌, if◌then◌else◌, ltb, length, ◌==◌,
}
use block_docs.Types.{Json, MarkType}
use block_docs.Editor.Renderer.{Node}
use block_docs.Editor.YText.{YText, Cell, char, chip, text_of, chips, held, delta_cells}
use block_docs.Editor.Input
use block_docs.Editor.Input.{
  InputType, insert_text, insert_paragraph, insert_line_break, delete_content_backward,
  delete_content_forward, insert_from_paste, other, Selection, Range, Effect, on_input, backspace,
  at_offset, handle_before_input, toggle_mark, paste_plain, on_composition_end,
}
use block_docs.Editor.Input.Reconcile.{reconcile_from_dom, text_of-chars, text_of-reconcile}
use block_docs.Editor.Marks
use block_docs.Editor.Marks.{Format, Insert, embed, DeltaOp, read_node, read_inline_nodes}
use block_docs.Editor.Renderer.Offsets.{shown, texts-render}
use block_docs.Editor.View.{
  View, Event, mounts, starts, receives, ends, inputs, toggles, pastes, text_content, is_prevented,
  draw, drawn_if, observe, write_native, take_input, toggle, step, run,
}

module _ (Y : YText) where
  -- An effect that sets no caret keeps the text.
  abbrev IsCaretless : Y.State → Effect Y.State → Type 0
  IsCaretless y e = e.caret ≡ none → e.text ≡ y

  if-IsCaretless :
      (b : Bool) (y : Y.State) (e f : Effect Y.State)
      → IsCaretless y e
      → IsCaretless y f
      → IsCaretless y (if b then e else f)
  if-IsCaretless true y e f g h = g
  if-IsCaretless false y e f g h = h

  backspace-IsCaretless : (n : ℕ) (y : Y.State) → IsCaretless y (backspace Y n y)
  unfolding backspace
  backspace-IsCaretless zero y =
      if-IsCaretless (length (Y.cells y) == 0) y _ _ (λ h. refl) (λ h. refl)
  backspace-IsCaretless (suc n) y = λ h. cc

  on_input-IsCaretless :
      (type : InputType) (s : Selection) (y : Y.State) → IsCaretless y (on_input Y type s y)
  unfolding on_input
  on_input-IsCaretless (insert_text text) s y = λ h. cc
  on_input-IsCaretless insert_paragraph s y = λ h. refl
  on_input-IsCaretless insert_line_break s y = λ h. cc
  on_input-IsCaretless delete_content_backward s y =
      if-IsCaretless (ltb s.start s.end) y _ _ (λ h. cc) (backspace-IsCaretless s.start y)
  on_input-IsCaretless delete_content_forward s y = λ h. cc
  on_input-IsCaretless (Input.format mark) s y = λ h. cc
  on_input-IsCaretless insert_from_paste s y = λ h. refl
  on_input-IsCaretless other s y = λ h. refl

  handle_before_input-IsCaretless :
      (composing : Bool) (offset : Option ℕ) (range : Option Range) (type : InputType) (y : Y.State)
      → IsCaretless y (handle_before_input Y composing offset range type y)
  unfolding handle_before_input at_offset
  handle_before_input-IsCaretless true offset range type y = λ h. refl
  handle_before_input-IsCaretless false none range type y = λ h. refl
  handle_before_input-IsCaretless false (some offset) range type y = on_input-IsCaretless type _ y

text_of-append : (xs ys : List Cell) → text_of (xs ++ ys) ≡ text_of xs ++ text_of ys
unfolding text_of
text_of-append [] ys = refl
text_of-append (char c ∷ xs) ys = ap (λ l. c ∷ l) (text_of-append xs ys)
text_of-append (chip m ∷ xs) ys = text_of-append xs ys

chips-append : (xs ys : List Cell) → chips (xs ++ ys) ≡ chips xs + chips ys
unfolding chips
chips-append [] ys = omega arith
chips-append (char c ∷ xs) ys = chips-append xs ys
chips-append (chip m ∷ xs) ys = omega (arith, chips-append xs ys)

-- What is seen of an operation without a mention.
shown-read_node :
    (i : Insert) (a : Option Format) → chips (held i) ≡ 0 → shown (read_node i a) ≡ text_of (held i)
unfolding read_node held chips
shown-read_node (Marks.text s) a h = sym (text_of-chars s)
shown-read_node (embed m) a h = absurd (omega (arith, h))

shown-read :
    (ops : List DeltaOp)
    → chips (delta_cells ops) ≡ 0
    → flatten (map shown (read_inline_nodes ops)) ≡ text_of (delta_cells ops)
unfolding read_inline_nodes delta_cells flatten text_of
shown-read [] h = refl
shown-read (op ∷ ops) h =
    let n = chips-append (held op.insert) (delta_cells ops) in
    ap₂ (λ a b. a ++ b) (shown-read_node op.insert op.attributes (omega (arith, h, n)))
      (shown-read ops (omega (arith, h, n)))
    ∙ sym (text_of-append (held op.insert) (delta_cells ops))

module _ (show : ℕ → String) (stringify : Json → String) (Y : YText) where
  open Y use {State, cells}

  abbrev pub HasNoMention : State → Type 0
  HasNoMention y = chips (cells y) ≡ 0

  -- What is drawn of a text without mentions reads as its string.
  text_content-draw :
      (y : State) → HasNoMention y → text_content (draw show stringify Y y) ≡ Y.to_string y
  unfolding draw text_content
  text_content-draw y h =
      texts-render show stringify (read_inline_nodes (Y.to_delta y))
      ∙ shown-read (Y.to_delta y) (ap chips (Y.to_delta-cells y) ∙ h)
      ∙ ap text_of (Y.to_delta-cells y)
      ∙ sym (Y.to_string-cells y)

  abbrev IsReadable : View State → Type 0
  IsReadable v = v.is_composing ≡ false → text_content v.dom ≡ Y.to_string v.text

  -- The caret is in the block when a composition ends.
  unfoldable pub IsSeen : Event State → Type 0
  IsSeen (ends none composed) = ⊥
  IsSeen e = Unit

  -- What is asked of each event, and of the text after it.
  abbrev pub AllSeen : State → List (Event State) → Type 0
  AllSeen y [] = HasNoMention y
  AllSeen y (e ∷ es) = IsSeen e × HasNoMention (run show stringify Y y (e ∷ es)).text × AllSeen y es

  drawn_if-IsReadable :
      (caret : Option ℕ) (y : State) (v : View State)
      → (caret ≡ none → y ≡ v.text)
      → HasNoMention (drawn_if show stringify Y caret y v).text
      → IsReadable v
      → IsReadable (drawn_if show stringify Y caret y v)
  unfolding drawn_if
  drawn_if-IsReadable none y v k p d = λ h. d h ∙ ap Y.to_string (sym (k refl))
  drawn_if-IsReadable (some caret) y v k p d = λ h. text_content-draw y p

  observe-IsReadable :
      (composing : Bool) (v : View State)
      → v.is_composing ≡ composing
      → HasNoMention (observe show stringify Y composing v).text
      → IsReadable (observe show stringify Y composing v)
  unfolding observe
  observe-IsReadable true v e p = λ h. absurd (false≢true (sym h ∙ e))
  observe-IsReadable false v e p = λ h. text_content-draw v.text p

  -- Whatever the browser wrote, the text reads as it.
  write_native-IsReadable :
      (native : List Node) (v : View State)
      → HasNoMention v.text
      → IsReadable (write_native show stringify Y native v)
  unfolding write_native
  write_native-IsReadable native v p = λ h.
      sym (text_of-reconcile Y (text_content native) v.text p)
      ∙ ap (λ b. text_of (cells (reconcile_from_dom Y b (text_content native) v.text))) (sym h)
      ∙ sym (Y.to_string-cells _)

  take_input-IsReadable :
      (prevented : Bool) (offset : Option ℕ) (range : Option Range) (type : InputType)
      (native : List Node) (v : View State)
      → HasNoMention v.text
      → HasNoMention (take_input show stringify Y prevented offset range type native v).text
      → IsReadable v
      → IsReadable (take_input show stringify Y prevented offset range type native v)
  unfolding take_input
  take_input-IsReadable true offset range type native v o p d =
      let e = handle_before_input Y v.is_composing offset range type v.text in
      drawn_if-IsReadable e.caret e.text v
        (handle_before_input-IsCaretless Y v.is_composing offset range type v.text) p d
  take_input-IsReadable false offset range type native v o p d = write_native-IsReadable native v o

  toggle-IsReadable :
      (mark : MarkType) (offset : Option ℕ) (range : Option Range) (v : View State)
      → HasNoMention (toggle show stringify Y mark offset range v).text
      → IsReadable v
      → IsReadable (toggle show stringify Y mark offset range v)
  unfolding toggle
  toggle-IsReadable mark none range v p d = d
  toggle-IsReadable mark (some start) none v p d = d
  toggle-IsReadable mark (some start) (some r) v p d = λ h. text_content-draw _ p

  step-IsReadable :
      (v : View State) (e : Event State)
      → IsSeen e
      → HasNoMention v.text
      → HasNoMention (step show stringify Y v e).text
      → IsReadable v
      → IsReadable (step show stringify Y v e)
  unfolding step IsSeen on_composition_end paste_plain drawn_if
  step-IsReadable v mounts s o p d = λ h. text_content-draw v.text p
  step-IsReadable v starts s o p d = λ h. absurd (false≢true (sym h))
  step-IsReadable v (receives update) s o p d =
      observe-IsReadable v.is_composing (record v { text = update v.text }) refl p
  step-IsReadable v (ends none composed) s o p d = absurd s
  step-IsReadable v (ends (some offset) composed) s o p d = λ h. text_content-draw _ p
  step-IsReadable v (inputs offset range type native) s o p d =
      take_input-IsReadable (is_prevented v.is_composing offset type) offset range type native v o p
        d
  step-IsReadable v (toggles mark offset range) s o p d = toggle-IsReadable mark offset range v p d
  step-IsReadable v (pastes offset range text) s o p d = λ h. text_content-draw _ p

  last_text :
      (y : State) (es : List (Event State))
      → AllSeen y es
      → HasNoMention (run show stringify Y y es).text
  unfolding run
  last_text y [] s = s
  last_text y (e ∷ es) s = s.1

  run-IsReadable :
      (y : State) (es : List (Event State)) → AllSeen y es → IsReadable (run show stringify Y y es)
  unfolding run
  run-IsReadable y [] s = λ h. text_content-draw y s
  run-IsReadable y (e ∷ es) s =
      step-IsReadable (run show stringify Y y es) e s.0 (last_text y es s.2) s.1
        (run-IsReadable y es s.2)

  -- After any inputs, handled or left to the browser, pastes, marks, compositions and updates of
  -- other clients, in any order: whenever the input method does not compose, what the block shows
  -- reads as its text, if the text never had a mention and the caret was in the block at the end of
  -- each composition. Of the marks nothing is said: what the browser wrote is not drawn again.
  pub run_reads :
      (y : State) (es : List (Event State))
      → AllSeen y es
      → (run show stringify Y y es).is_composing ≡ false
      → text_content (run show stringify Y y es).dom ≡ Y.to_string (run show stringify Y y es).text
  run_reads y es s h = run-IsReadable y es s h
