-- ===== src/Editor/Marks/Laws.antt =====
-- The marks of inline nodes as the format objects of apps/web/src/editor/yjs.ts, and back.
use block_docs.Base.{
  ℕ, ◌+◌, ◌≡◌, ◌≢◌, refl, sym, ap, ap₂, ◌∙◌, String, Option, none, some, List, [], ◌∷◌, ◌++◌, map,
  length, arith, All, if_neg, string_discrete, string_key, append_assoc, append-nil,
}
use mathlib.Core.Option.{some-injective}
use block_docs.JsMap
use block_docs.JsMap.{JsMap}
use block_docs.JsMap.Laws.{get-set}
use block_docs.Types.{MarkType, bold, italic, strike, code, link, comment, Mark, InlineNode, Attrs}
use block_docs.Editor.Marks.{
  Format, FormatValue, name_of, type_of, value_of, set_marks, marks_to_format, mark_with, mark_of,
  push, read_marks, non_empty, format_to_marks, apply_from, read_node, read_inline_nodes,
}

type_of-name_of : (t : MarkType) → type_of (name_of t) ≡ some t
unfolding type_of name_of string_discrete
type_of-name_of bold = refl
type_of-name_of italic = refl
type_of-name_of strike = refl
type_of-name_of code = refl
type_of-name_of link = refl
type_of-name_of comment = refl

-- A mark as the editor stores it: links and comments have attributes, and no others do.
abbrev pub HasRightAttrs : MarkType → Option Attrs → Type 0
HasRightAttrs link none = ⊥
HasRightAttrs link (some a) = Unit
HasRightAttrs comment none = ⊥
HasRightAttrs comment (some a) = Unit
HasRightAttrs t none = Unit
HasRightAttrs t (some a) = ⊥

-- Such marks, of different types.
abbrev pub IsStored : List Mark → Type 0
IsStored [] = Unit
IsStored (m ∷ ms) = HasRightAttrs m.type m.attrs × All (λ n. m.type ≢ n.type) ms × IsStored ms

mark_of-value_of :
    (t : MarkType) (a : Option Attrs)
    → HasRightAttrs t a
    → mark_of (name_of t) (value_of t a) ≡ some (record { type = t; attrs = a })
unfolding mark_of value_of mark_with type_of name_of string_discrete
mark_of-value_of bold none h = refl
mark_of-value_of bold (some a) h = absurd h
mark_of-value_of italic none h = refl
mark_of-value_of italic (some a) h = absurd h
mark_of-value_of strike none h = refl
mark_of-value_of strike (some a) h = absurd h
mark_of-value_of code none h = refl
mark_of-value_of code (some a) h = absurd h
mark_of-value_of link none h = absurd h
mark_of-value_of link (some a) h = refl
mark_of-value_of comment none h = absurd h
mark_of-value_of comment (some a) h = refl

set-absent :
    (k : String) (v : FormatValue) (fmt : Format)
    → JsMap.get k fmt ≡ none
    → JsMap.set k v fmt ≡ fmt ++ (k, v) ∷ []
unfolding JsMap.get JsMap.set
set-absent k v [] h = refl
set-absent k v ((j, w) ∷ fmt) h = ground (arith, set-absent k v fmt)

push-append : (m : Option Mark) (xs ys : List Mark) → push m xs ++ ys ≡ push m (xs ++ ys)
unfolding push
push-append none xs ys = refl
push-append (some m) xs ys = refl

read_marks-append : (f g : Format) → read_marks (f ++ g) ≡ read_marks f ++ read_marks g
unfolding read_marks
read_marks-append [] g = refl
read_marks-append ((k, v) ∷ f) g =
    ap (push (mark_of k v)) (read_marks-append f g)
    ∙ sym (push-append (mark_of k v) (read_marks f) (read_marks g))

abbrev IsUnused : Format → Mark → Type 0
IsUnused fmt m = JsMap.get (name_of m.type) fmt ≡ none

IsUnused-set :
    (m : Mark) (ms : List Mark) (fmt : Format)
    → All (λ n. m.type ≢ n.type) ms
    → All (IsUnused fmt) ms
    → All (IsUnused (JsMap.set (name_of m.type) (value_of m.type m.attrs) fmt)) ms
IsUnused-set m [] fmt d u = tt
IsUnused-set m (n ∷ ms) fmt d u = (
  get-set (name_of n.type) (name_of m.type) (value_of m.type m.attrs) fmt
      ∙ if_neg (string_discrete (name_of m.type) (name_of n.type))
          (λ e. d.0 (
            some-injective m.type n.type
              (sym (type_of-name_of m.type) ∙ ap type_of e ∙ type_of-name_of n.type)))
          _ _
      ∙ u.0,
  IsUnused-set m ms fmt d.1 u.1,
)

read_marks-single :
    (m : Mark)
    → HasRightAttrs m.type m.attrs
    → read_marks ((name_of m.type, value_of m.type m.attrs) ∷ []) ≡ m ∷ []
unfolding read_marks push
read_marks-single m h = ap (λ o. push o []) (mark_of-value_of m.type m.attrs h)

read_marks-set_marks :
    (ms : List Mark) (fmt : Format)
    → IsStored ms
    → All (IsUnused fmt) ms
    → read_marks (set_marks ms fmt) ≡ read_marks fmt ++ ms
unfolding set_marks
read_marks-set_marks [] fmt s u = sym (append-nil (read_marks fmt))
read_marks-set_marks (m ∷ ms) fmt s u =
    read_marks-set_marks ms (JsMap.set (name_of m.type) (value_of m.type m.attrs) fmt) s.2
      (IsUnused-set m ms fmt s.1 u.1)
    ∙ ap (λ f. read_marks f ++ ms) (set-absent (name_of m.type) (value_of m.type m.attrs) fmt u.0)
    ∙ ap (λ l. l ++ ms) (read_marks-append fmt ((name_of m.type, value_of m.type m.attrs) ∷ []))
    ∙ ap (λ l. (read_marks fmt ++ l) ++ ms) (read_marks-single m s.0)
    ∙ append_assoc (read_marks fmt) (m ∷ []) ms

All-IsUnused : (ms : List Mark) → All (IsUnused []) ms
unfolding JsMap.get
All-IsUnused [] = tt
All-IsUnused (m ∷ ms) = (refl, All-IsUnused ms)

format_to_marks-marks_to_format :
    (ms : List Mark) → IsStored ms → format_to_marks (marks_to_format (non_empty ms)) ≡ non_empty ms
unfolding format_to_marks marks_to_format
format_to_marks-marks_to_format [] s = refl
format_to_marks-marks_to_format (m ∷ ms) s =
    ap non_empty (read_marks-set_marks (m ∷ ms) [] s (All-IsUnused (m ∷ ms)))

-- A node as the editor stores it: a text has stored marks, or none at all.
abbrev pub IsStoredNode : InlineNode → Type 0
IsStoredNode (InlineNode.text s none) = Unit
IsStoredNode (InlineNode.text s (some [])) = ⊥
IsStoredNode (InlineNode.text s (some (m ∷ ms))) = IsStored (m ∷ ms)
IsStoredNode (InlineNode.mention m) = Unit

-- What a node takes in the Y.Text: its characters, or one place for a mention.
-- The operations that the calls carry, read as nodes; what a Y.Text makes of the calls is in
-- Editor.Marks.Seed.
read-apply_from :
    (n : ℕ) (nodes : List InlineNode)
    → All IsStoredNode nodes
    → read_inline_nodes (map (λ c. c.op) (apply_from n nodes)) ≡ nodes
unfolding apply_from read_inline_nodes read_node format_to_marks marks_to_format
read-apply_from n [] h = refl
read-apply_from n (InlineNode.text s none ∷ nodes) h =
    ap (λ l. InlineNode.text s none ∷ l) (read-apply_from (n + length s) nodes h.1)
read-apply_from n (InlineNode.text s (some []) ∷ nodes) h = absurd h.0
read-apply_from n (InlineNode.text s (some (m ∷ ms)) ∷ nodes) h =
    ap₂ (λ o l. InlineNode.text s o ∷ l) (format_to_marks-marks_to_format (m ∷ ms) h.0)
      (read-apply_from (n + length s) nodes h.1)
read-apply_from n (InlineNode.mention m ∷ nodes) h =
    ap (λ l. InlineNode.mention m ∷ l) (read-apply_from (n + 1) nodes h.1)
