-- ===== src/Editor/Input/Reconcile.antt =====
-- `reconcileFromDom` of apps/web/src/components/editor/ContentEditableBlock.tsx, which takes over what
-- stands in the DOM when an input was not handled before.
use block_docs.Base.{
  ◌+◌, ◌≤◌, ◌≡◌, ◌≢◌, refl, ap, ◌∙◌, Bool, true, false, List, [], ◌∷◌, ◌++◌, length, take, arith,
  ite, if_neg, if_pos, length-append, append-nil, sym,
}
use block_docs.Text.{Text, text_discrete}
use block_docs.Editor.YText.{YText, Cell, char, chip, chars, text_of, chips, is_cut}
use block_docs.Editor.YText.Splice.{length-chars, take-chars}

length-text_of : (cs : List Cell) → length (text_of cs) + chips cs ≡ length cs
unfolding text_of chips
length-text_of [] = refl
length-text_of (char c ∷ cs) = omega (arith, length-text_of cs)
length-text_of (chip m ∷ cs) = omega (arith, length-text_of cs)

length-nil : (xs : List Cell) → length xs ≡ 0 → xs ≡ []
length-nil [] h = refl
length-nil (x ∷ xs) h = absurd (omega (arith, h))

pub text_of-chars : (t : Text) → text_of (chars t) ≡ t
unfolding text_of
text_of-chars [] = refl
text_of-chars (c ∷ t) = ap (λ l. c ∷ l) (text_of-chars t)

module _ (Y : YText) where
  open Y use {State, cells}

  -- `if (yStr.length > 0) yText.delete(0, yStr.length)`
  delete_all : Text → State → State
  delete_all [] y = y
  delete_all (c ∷ old) y = Y.delete 0 (length (c ∷ old)) y

  -- `if (dom.length > 0) yText.insert(0, dom)`
  insert_all : Text → State → State
  insert_all [] y = y
  insert_all (c ∷ dom) y = Y.insert 0 (c ∷ dom) y

  unfoldable pub reconcile_from_dom : (is_composing : Bool) → Text → State → State
  unfolding delete_all insert_all text_discrete
  reconcile_from_dom true dom y = y
  reconcile_from_dom false dom y =
      ite (text_discrete dom (Y.to_string y)) y (insert_all dom (delete_all (Y.to_string y) y))

  length-delete_all :
      (old : Text) (y : State)
      → length old ≤ length (cells y)
      → length (cells (delete_all old y)) + length old ≡ length (cells y)
  unfolding delete_all
  length-delete_all [] y h = omega arith
  length-delete_all (c ∷ old) y h = Y.length-delete 0 (length (c ∷ old)) y (omega (arith, h))

  cells-insert_all : (dom : Text) (y : State) → cells (insert_all dom y) ≡ chars dom ++ cells y
  unfolding insert_all is_cut
  cells-insert_all [] y = refl
  cells-insert_all (c ∷ dom) y = Y.cells-insert 0 (c ∷ dom) y (omega arith) refl

  cells-reconcile :
      (dom : Text) (y : State)
      → dom ≢ Y.to_string y
      → cells (reconcile_from_dom false dom y) ≡ chars dom ++ cells (delete_all (Y.to_string y) y)
  unfolding reconcile_from_dom
  cells-reconcile dom y ne =
      ap cells (if_neg (text_discrete dom (Y.to_string y)) ne _ _)
      ∙ cells-insert_all dom (delete_all (Y.to_string y) y)

  -- As many places are left as there were mentions.
  length-rest : (y : State) → length (cells (delete_all (Y.to_string y) y)) ≡ chips (cells y)
  length-rest y =
      let e = ap length (Y.to_string-cells y) in
      let n = length-text_of (cells y) in
      omega (arith, e, n, length-delete_all (Y.to_string y) y (omega (arith, e, n)))

  -- When the DOM's text is not the text's string, the text starts with the DOM's text afterwards.
  -- Behind it stand as many more places as there were mentions before: without a mention the text
  -- is the DOM's, and with one it is too long.
  pub reconcile_from_dom_lem :
      (dom : Text) (y : State)
      → dom ≢ Y.to_string y
      → (take (length dom) (cells (reconcile_from_dom false dom y)) ≡ chars dom)
        × (length (cells (reconcile_from_dom false dom y)) ≡ length dom + chips (cells y))
  reconcile_from_dom_lem dom y ne =
      let e = cells-reconcile dom y ne in
      let rest = cells (delete_all (Y.to_string y) y) in
      (
        ap (take (length dom)) e ∙ take-chars dom rest,
        omega (arith, ap length e, length-append (chars dom) rest, length-chars dom, length-rest y),
      )

  -- A text without mentions reads as the DOM afterwards.
  pub text_of-reconcile :
      (dom : Text) (y : State)
      → chips (cells y) ≡ 0
      → text_of (cells (reconcile_from_dom false dom y)) ≡ dom
  unfolding reconcile_from_dom
  text_of-reconcile dom y h = elim (text_discrete dom (Y.to_string y)) [
    | yes p ↦
        ap (λ z. text_of (cells z)) (if_pos (text_discrete dom (Y.to_string y)) p _ _)
        ∙ sym (Y.to_string-cells y)
        ∙ sym p
    | no n ↦
        ap text_of (
          cells-reconcile dom y n
          ∙ ap (λ l. chars dom ++ l)
              (length-nil (cells (delete_all (Y.to_string y) y)) (length-rest y ∙ h))
          ∙ append-nil (chars dom))
        ∙ text_of-chars dom
  ]
