-- ===== src/Editor/Renderer/Offsets.antt =====
-- Where the caret comes to stand in the drawing of apps/web/src/editor/inline-renderer.ts.
use mathlib.Core.List.{flatten}
use block_docs.Base.{
  ℕ, zero, suc, ◌-◌, ◌≤◌, ◌<◌, ◌≡◌, refl, sym, ap, ap₂, ◌∙◌, String, Bool-cases, Option, get_or,
  List, [], ◌∷◌, ◌++◌, map, take, length, leb, arith, append_assoc, append-nil, inl, inr,
}
use block_docs.Text.{Text}
use block_docs.Types.{
  MarkType, Attrs, bold, italic, strike, code, link, comment, Json, Mark, InlineNode,
}
use block_docs.Editor.Renderer.{
  Node, text_node, with_text, Attributes, wrapper, wrap_mark, wrap_marks, build_inline_node,
  render_inline_nodes, texts, all_texts, Caret, in_text, at_end, next_text, locate, text_before,
  set_selection_offset, get_selection_offset,
}

-- What a reader sees of a node.
abbrev pub shown : InlineNode → Text
shown (InlineNode.text t marks) = t
shown (InlineNode.mention m) = m.label

take-short : (n : ℕ) (s t : Text) → n ≤ length s → take n (s ++ t) ≡ take n s
take-short zero s t h = refl
take-short (suc n) [] t h = absurd (omega (arith, h))
take-short (suc n) (c ∷ s) t h = ap (λ l. c ∷ l) (take-short n s t (omega (arith, h)))

take-long : (n : ℕ) (s t : Text) → length s < n → take n (s ++ t) ≡ s ++ take (n - length s) t
take-long n [] t h = ap (λ k. take k t) (omega arith)
take-long zero (c ∷ s) t h = absurd (omega (arith, h))
take-long (suc n) (c ∷ s) t h =
    ap (λ l. c ∷ l)
      (take-long n s t (omega (arith, h)) ∙ ap (λ k. s ++ take k t) (omega (arith, h)))

text_before-next :
    (t : Text) (ts : List Text) (c : Caret)
    → text_before (t ∷ ts) (next_text c) ≡ t ++ text_before ts c
unfolding text_before next_text flatten
text_before-next t ts (in_text i k) = append_assoc t (flatten (take i ts)) _
text_before-next t ts at_end = refl

take-nil : (n : ℕ) → take {A = ℕ} n [] ≡ []
take-nil zero = refl
take-nil (suc n) = refl

flatten-append : (xs ys : List Text) → flatten (xs ++ ys) ≡ flatten xs ++ flatten ys
unfolding flatten
flatten-append [] ys = refl
flatten-append (x ∷ xs) ys =
    ap (λ l. x ++ l) (flatten-append xs ys) ∙ sym (append_assoc x (flatten xs) (flatten ys))

text_before-locate :
    (offset : ℕ) (ts : List Text) → text_before ts (locate offset ts) ≡ take offset (flatten ts)
unfolding locate text_before flatten
text_before-locate offset [] = sym (take-nil offset)
text_before-locate offset (t ∷ ts) = elim (Bool-cases (leb offset (length t))) [
  | inl e ↦ rw e (sym (take-short offset t (flatten ts) (ground arith)))
  | inr e ↦ rw e (
      text_before-next t ts (locate (offset - length t) ts)
      ∙ ap (λ l. t ++ l) (text_before-locate (offset - length t) ts)
      ∙ sym (take-long offset t (flatten ts) (ground arith)))
]

module _ (show : ℕ → String) (stringify : Json → String) where
  texts-wrapper :
      (type : MarkType) (attrs : Option Attrs) (el : Node)
      → texts (wrapper show stringify type attrs el) ≡ texts el
  unfolding texts wrapper
  texts-wrapper bold attrs el = refl
  texts-wrapper italic attrs el = refl
  texts-wrapper strike attrs el = refl
  texts-wrapper code attrs el = refl
  texts-wrapper link attrs el = refl
  texts-wrapper comment attrs el = refl

  texts-wrap_marks :
      (el : Node) (marks : List Mark) → texts (wrap_marks show stringify el marks) ≡ texts el
  unfolding wrap_marks wrap_mark
  texts-wrap_marks el [] = refl
  texts-wrap_marks el (m ∷ ms) =
      texts-wrap_marks (wrap_mark show stringify el m) ms ∙ texts-wrapper m.type m.attrs el

  texts-with_text :
      (tag : String) (attributes : Attributes) (t : Text)
      → flatten (texts (with_text tag attributes t)) ≡ t
  unfolding texts with_text flatten
  texts-with_text tag attributes [] = refl
  texts-with_text tag attributes (c ∷ t) = append-nil (c ∷ t)

  texts-build : (n : InlineNode) → flatten (texts (build_inline_node show stringify n)) ≡ shown n
  unfolding build_inline_node flatten
  texts-build (InlineNode.mention m) = texts-with_text "span" _ m.label
  texts-build (InlineNode.text t marks) =
      ap flatten (texts-wrap_marks (text_node t) (get_or marks [])) ∙ (unfold texts in append-nil t)

  texts-map_build :
      (ns : List InlineNode)
      → flatten (all_texts (map (build_inline_node show stringify) ns)) ≡ flatten (map shown ns)
  unfolding all_texts flatten
  texts-map_build [] = refl
  texts-map_build (n ∷ ns) =
      flatten-append (texts (build_inline_node show stringify n)) _
      ∙ ap₂ (λ a b. a ++ b) (texts-build n) (texts-map_build ns)

  pub texts-render :
      (ns : List InlineNode)
      → flatten (all_texts (render_inline_nodes show stringify ns)) ≡ flatten (map shown ns)
  unfolding render_inline_nodes all_texts texts flatten
  texts-render [] = refl
  texts-render (n ∷ ns) = texts-map_build (n ∷ ns)

  -- Before the caret that is set at an offset stand the first characters of what is shown, as many
  -- as the offset says, and all if there are fewer; marks do not matter. A mention counts with all
  -- characters of its label. So the offset that is read back is the one that was set, or the length
  -- of what is shown if that is less.
  pub set_selection_offset_lem :
      (ns : List InlineNode) (offset : ℕ)
      → let root = render_inline_nodes show stringify ns in
        let c = set_selection_offset root offset in
        (text_before (all_texts root) c ≡ take offset (flatten (map shown ns)))
        × (get_selection_offset root c ≡ length (take offset (flatten (map shown ns))))
  unfolding set_selection_offset get_selection_offset
  set_selection_offset_lem ns offset =
      let root = render_inline_nodes show stringify ns in
      let e : text_before (all_texts root) (locate offset (all_texts root))
          ≡ take offset (flatten (map shown ns)) =
        text_before-locate offset (all_texts root) ∙ ap (take offset) (texts-render ns) in
      (e, ap length e)
