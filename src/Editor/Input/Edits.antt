-- ===== src/Editor/Input/Edits.antt =====
-- What the input handlers of apps/web/src/components/editor/ContentEditableBlock.tsx do to the text.
use mathlib.Core.Option.{some-injective}
use block_docs.Base.{
  ℕ, zero, suc, ◌+◌, ◌-◌, ◌≤◌, ◌<◌, ◌≡◌, refl, sym, ap, ap₂, subst, ◌∙◌, Bool, true, false, Option,
  none, some, get_or, [], ◌∷◌, ◌++◌, take, drop, length, ltb, ◌==◌, if◌then◌else◌, arith,
  Bool-cases, inl, inr,
}
use block_docs.Text.{Text}
use block_docs.Types.{MarkType}
use block_docs.Editor.YText.{YText, char, chars, splice, is_cut, IsBoundary}
use block_docs.Editor.YText.Splice.{
  splice_nothing, length-chars, length-splice, splice-splice, is_cut-take,
}
use block_docs.Editor.Toggle.{toggle_value}
use block_docs.Editor.Input.{
  InputType, insert_text, insert_paragraph, insert_line_break, insert_from_paste,
  delete_content_backward, delete_content_forward, format, other, on_backspace_at_empty,
  on_backspace_at_start, Selection, Effect, delete_selection, backspace, formatted, on_input,
}

-- What an input is meant to replace, and by which text: the selection; with nothing selected, the
-- place before the caret or the one behind it, as far as there is one.
pub record Replacement : Type 0 where
  pub from : ℕ
  pub to : ℕ
  pub text : Text

abbrev replace : ℕ → ℕ → Text → Replacement
replace from to text = record { from = from; to = to; text = text }

unfoldable pub replacement : InputType → Selection → ℕ → Replacement
replacement (insert_text text) s size = replace s.start s.end (get_or text [])
replacement insert_line_break s size = replace s.start s.end (10 ∷ [])
replacement delete_content_backward s size =
    if ltb s.start s.end then replace s.start s.end [] else replace (s.start - 1) s.start []
replacement delete_content_forward s size =
    if ltb s.start s.end
    then replace s.start s.end []
    else replace s.start (if ltb s.start size then s.start + 1 else s.start) []
replacement _ s size = replace s.start s.start []

-- There is nothing to say of an input that the handler leaves to the browser.
unfoldable pub meant : InputType → Selection → ℕ → Option Replacement
unfolding replacement
meant other s size = none
meant type s size = some (replacement type s size)

abbrev pub IsWithin : Option ℕ → ℕ → Type 0
IsWithin none n = Unit
IsWithin (some c) n = c ≤ n

-- The shown text with the part replaced.
unfoldable pub replaced_text : Replacement → Text → Text
replaced_text r dom = take r.from dom ++ (r.text ++ drop r.to dom)

take-chars_of : (n : ℕ) (t : Text) → take n (chars t) ≡ chars (take n t)
take-chars_of zero t = refl
take-chars_of (suc n) [] = refl
take-chars_of (suc n) (c ∷ t) = ap (λ l. char c ∷ l) (take-chars_of n t)

drop-chars_of : (n : ℕ) (t : Text) → drop n (chars t) ≡ chars (drop n t)
drop-chars_of zero t = refl
drop-chars_of (suc n) [] = refl
drop-chars_of (suc n) (c ∷ t) = drop-chars_of n t

chars-append : (s t : Text) → chars (s ++ t) ≡ chars s ++ chars t
chars-append [] t = refl
chars-append (c ∷ s) t = ap (λ l. char c ∷ l) (chars-append s t)

splice-chars :
    (r : Replacement) (dom : Text)
    → splice r.from r.to (chars r.text) (chars dom) ≡ chars (replaced_text r dom)
unfolding replaced_text
splice-chars r dom =
    ap₂ (λ a b. a ++ (chars r.text ++ b)) (take-chars_of r.from dom) (drop-chars_of r.to dom)
    ∙ ap (λ l. chars (take r.from dom) ++ l) (sym (chars-append r.text (drop r.to dom)))
    ∙ sym (chars-append (take r.from dom) (r.text ++ drop r.to dom))

module _ (Y : YText) where
  open Y use {State, cells}

  -- The selection lies in the text.
  abbrev pub IsInside : Selection → State → Type 0
  IsInside s y = (s.start ≤ s.end) × (s.end ≤ length (cells y))

  cells-delete_selection :
      (s : Selection) (y : State)
      → IsInside s y
      → IsBoundary s.start (cells y)
      → IsBoundary s.end (cells y)
      → cells (delete_selection Y s y) ≡ splice s.start s.end [] (cells y)
  unfolding delete_selection
  cells-delete_selection s y h p q = elim (Bool-cases (ltb s.start s.end)) [
    | inl lt ↦ rw lt (
        Y.cells-delete s.start (s.end - s.start) y (ground arith) p
          (subst (λ k. IsBoundary k (cells y)) (ground arith) q)
        ∙ ap (λ e. splice s.start e [] (cells y)) (ground arith))
    | inr ge ↦ rw ge (
        sym (splice_nothing s.start (cells y))
        ∙ ap (λ e. splice s.start e [] (cells y)) (ground arith))
  ]

  replaced :
      (s : Selection) (t : Text) (y : State)
      → IsInside s y
      → IsBoundary s.start (cells y)
      → IsBoundary s.end (cells y)
      → cells (Y.insert s.start t (delete_selection Y s y))
        ≡ splice s.start s.end (chars t) (cells y)
  replaced s t y h p q =
      let e = cells-delete_selection s y h p q in
      Y.cells-insert s.start t (delete_selection Y s y)
        (omega (arith, ap length e, length-splice s.start s.end [] (cells y)))
        (ap (is_cut false s.start) e
          ∙ is_cut-take false s.start (cells y) (drop s.end (cells y)) (omega (arith, h))
          ∙ p)
      ∙ ap (splice s.start s.start (chars t)) e
      ∙ splice-splice s.start s.end (chars t) (cells y) (omega (arith, h))

  -- The cells of the result, and the caret in it.
  abbrev pub Does : Effect State → Replacement → State → Type 0
  Does e r y =
      (cells e.text ≡ splice r.from r.to (chars r.text) (cells y))
      × IsWithin e.caret (length (cells e.text))

  -- A result whose caret is behind what was inserted.
  caret-within :
      (a b : ℕ) (t : Text) (y z : State)
      → cells z ≡ splice a b (chars t) (cells y)
      → a ≤ length (cells y)
      → b ≤ length (cells y)
      → a + length t ≤ length (cells z)
  caret-within a b t y z e h k =
      omega (arith, ap length e, length-splice a b (chars t) (cells y), length-chars t)

  replaced-Does :
      (s : Selection) (t : Text) (y : State)
      → IsInside s y
      → IsBoundary s.start (cells y)
      → IsBoundary s.end (cells y)
      → Does
          (record {
            text = Y.insert s.start t (delete_selection Y s y);
            caret = some (s.start + length t);
            callback = none;
          })
          (replace s.start s.end t)
          y
  replaced-Does s t y h p q =
      let e = replaced s t y h p q in (e, caret-within s.start s.end t y _ e (omega (arith, h)) h.1)

  deleted-Does :
      (a n b : ℕ) (y : State)
      → a + n ≡ b
      → b ≤ length (cells y)
      → IsBoundary a (cells y)
      → IsBoundary b (cells y)
      → Does (record { text = Y.delete a n y; caret = some a; callback = none }) (replace a b []) y
  deleted-Does a n b y e h u v =
      let p : cells (Y.delete a n y) ≡ splice a b [] (cells y) =
        Y.cells-delete a n y (omega (arith, e, h)) u (subst (λ k. IsBoundary k (cells y)) (sym e) v)
        ∙ ap (λ k. splice a k [] (cells y)) e in
      (p, omega (arith, caret-within a b [] y (Y.delete a n y) p (omega arith) h))

  kept-Does :
      (from : ℕ) (e : Effect State) (y : State)
      → e.caret ≡ none
      → cells e.text ≡ cells y
      → Does e (replace from from []) y
  kept-Does from e y c t = (
    t ∙ sym (splice_nothing from (cells y)),
    subst (λ o. IsWithin o (length (cells e.text))) (sym c) tt,
  )

  backspace-Does :
      (n : ℕ) (y : State)
      → n ≤ length (cells y)
      → IsBoundary (n - 1) (cells y)
      → IsBoundary n (cells y)
      → Does (backspace Y n y) (replace (n - 1) n []) y
  unfolding backspace
  backspace-Does zero y h p q = elim (Bool-cases (length (cells y) == 0)) [
    | inl e ↦ rw e (
        kept-Does 0 (record { text = y; caret = none; callback = some on_backspace_at_empty }) y
          refl refl)
    | inr e ↦ rw e (
        kept-Does 0 (record { text = y; caret = none; callback = some on_backspace_at_start }) y
          refl refl)
  ]
  backspace-Does (suc n) y h p q =
      subst (λ k. Does (backspace Y (suc n) y) (replace k (suc n) []) y) (omega arith)
        (deleted-Does n 1 (suc n) y (omega arith) h
          (subst (λ k. IsBoundary k (cells y)) (omega arith) p) q)

  cells-formatted :
      (o : Option Bool) (mark : MarkType) (s : Selection) (y : State)
      → IsInside s y
      → IsBoundary s.start (cells y)
      → IsBoundary s.end (cells y)
      → cells (formatted Y o mark s y) ≡ cells y
  unfolding formatted
  cells-formatted none mark s y h p q = refl
  cells-formatted (some set) mark s y h p q =
      Y.cells-format s.start (s.end - s.start) mark set y (omega (arith, h)) p
        (subst (λ k. IsBoundary k (cells y)) (omega (arith, h)) q)

  forward-Does :
      (b : Bool) (s : Selection) (y : State)
      → (b ≡ true → s.start < length (cells y))
      → s.start ≤ length (cells y)
      → IsBoundary s.start (cells y)
      → IsBoundary (if b then s.start + 1 else s.start) (cells y)
      → Does
          (record {
            text = if b then Y.delete s.start 1 y else y;
            caret = some s.start;
            callback = none;
          })
          (replace s.start (if b then s.start + 1 else s.start) [])
          y
  forward-Does true s y lt h p q =
      deleted-Does s.start 1 (s.start + 1) y refl (omega (arith, lt refl)) p q
  forward-Does false s y lt h p q = (sym (splice_nothing s.start (cells y)), h)

  -- Neither the selection nor what is meant begins or ends inside of a surrogate pair.
  pub record IsWhole (s : Selection) (r : Replacement) (y : State) : Type 0 where
    pub start : IsBoundary s.start (cells y)
    pub end : IsBoundary s.end (cells y)
    pub from : IsBoundary r.from (cells y)
    pub to : IsBoundary r.to (cells y)

  on_input-Does :
      (type : InputType) (s : Selection) (y : State)
      → IsInside s y
      → IsWhole s (replacement type s (length (cells y))) y
      → Does (on_input Y type s y) (replacement type s (length (cells y))) y
  unfolding on_input replacement
  on_input-Does (insert_text t) s y h w = replaced-Does s (get_or t []) y h w.start w.end
  on_input-Does insert_line_break s y h w = replaced-Does s (10 ∷ []) y h w.start w.end
  on_input-Does insert_paragraph s y h w = (sym (splice_nothing s.start (cells y)), tt)
  on_input-Does insert_from_paste s y h w = (sym (splice_nothing s.start (cells y)), tt)
  on_input-Does other s y h w = (sym (splice_nothing s.start (cells y)), tt)
  on_input-Does (format mark) s y h w =
      let e =
        cells-formatted (toggle_value mark s.start s.end (Y.to_delta y)) mark s y h w.start w.end in
      (e ∙ sym (splice_nothing s.start (cells y)), omega (arith, ap length e, h))
  on_input-Does delete_content_backward s y h w = elim (Bool-cases (ltb s.start s.end)) [
    | inl lt ↦
        rw lt (deleted-Does s.start (s.end - s.start) s.end y (ground arith) h.1 w.start w.end)
    | inr ge ↦ rw ge (
        backspace-Does s.start y (omega (arith, h))
          (subst
            (λ b.
              IsBoundary
                (if b then replace s.start s.end [] else replace (s.start - 1) s.start []).from
                (cells y))
            ge w.from)
          w.start)
  ]
  on_input-Does delete_content_forward s y h w = elim (Bool-cases (ltb s.start s.end)) [
    | inl lt ↦
        rw lt (deleted-Does s.start (s.end - s.start) s.end y (ground arith) h.1 w.start w.end)
    | inr ge ↦ rw ge (
        forward-Does (ltb s.start (length (cells y))) s y (λ q. ground arith) (omega (arith, h))
          w.start
          (subst
            (λ b.
              IsBoundary
                (if b
                  then replace s.start s.end []
                  else replace s.start
                      (if ltb s.start (length (cells y)) then s.start + 1 else s.start) []).to
                (cells y))
            ge w.to))
  ]

  -- The text, all of it characters, and the caret in it.
  abbrev Reads : Effect State → Text → Type 0
  Reads e t = (cells e.text ≡ chars t) × IsWithin e.caret (length t)

  replacement-Does :
      (type : InputType) (s : Selection) (y : State) (dom : Text) (r : Replacement)
      → cells y ≡ chars dom
      → s.start ≤ s.end
      → s.end ≤ length dom
      → IsWhole s r y
      → some (replacement type s (length dom)) ≡ some r
      → Reads (on_input Y type s y) (replaced_text r dom)
  replacement-Does type s y dom r shows le inside w e =
      let n : length dom ≡ length (cells y) = sym (length-chars dom) ∙ sym (ap length shows) in
      let f : r ≡ replacement type s (length (cells y)) =
        sym (some-injective _ _ e) ∙ ap (replacement type s) n in
      let done : Does (on_input Y type s y) r y =
        subst (λ q. Does (on_input Y type s y) q y) (sym f)
          (on_input-Does type s y (le, omega (arith, inside, n))
            (subst (λ q. IsWhole s q y) f w)) in
      let t : cells (on_input Y type s y).text ≡ chars (replaced_text r dom) =
        done.0 ∙ ap (splice r.from r.to (chars r.text)) shows ∙ splice-chars r dom in
      (
        t,
        subst (IsWithin (on_input Y type s y).caret)
            (ap length t ∙ length-chars (replaced_text r dom)) done.1,
      )

  -- In a block that shows a text without mentions, for an input that the handler does not leave to
  -- the browser, with a selection in the shown text, where neither the selection nor the part that is
  -- meant begins or ends inside of a surrogate pair: the input replaces exactly the part that is
  -- meant by the text that is meant, all else stays, and the caret is set inside the new text.
  pub on_input_replaces :
      (type : InputType) (s : Selection) (y : State) (dom : Text) (r : Replacement)
      → cells y ≡ chars dom
      → s.start ≤ s.end
      → s.end ≤ length dom
      → IsWhole s r y
      → meant type s (length dom) ≡ some r
      → (cells (on_input Y type s y).text ≡ chars (replaced_text r dom))
        × IsWithin (on_input Y type s y).caret (length (replaced_text r dom))
  unfolding meant
  on_input_replaces (insert_text t) s y dom r = replacement-Does (insert_text t) s y dom r
  on_input_replaces insert_paragraph s y dom r = replacement-Does insert_paragraph s y dom r
  on_input_replaces insert_line_break s y dom r = replacement-Does insert_line_break s y dom r
  on_input_replaces insert_from_paste s y dom r = replacement-Does insert_from_paste s y dom r
  on_input_replaces delete_content_backward s y dom r =
      replacement-Does delete_content_backward s y dom r
  on_input_replaces delete_content_forward s y dom r =
      replacement-Does delete_content_forward s y dom r
  on_input_replaces (format mark) s y dom r = replacement-Does (format mark) s y dom r
  on_input_replaces other s y dom r = λ shows le inside w e. cc
