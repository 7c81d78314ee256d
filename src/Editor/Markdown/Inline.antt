-- ===== src/Editor/Markdown/Inline.antt =====
-- Inline tokens of apps/web/src/editor/paste-markdown.ts, made into inline nodes.
pub mod Merge
use block_docs.Base.{
  ℕ, String, Bool, true, false, ◌&&◌, Option, none, some, List, [], ◌∷◌, ◌++◌, ite, if◌then◌else◌,
  string_discrete,
}
use block_docs.Text.{Text, codes}
use block_docs.Editor.Marks.{name_of}
use block_docs.Types.{
  MarkType, bold, italic, strike, code, link, comment, Mark, InlineNode, Attrs, str,
}

-- The inline tokens of marked, with the fields that are read. A list of tokens that is missing is
-- `nil`, where the code does not tell the two apart. `raw_text` stands for `escape` and `html`.
mutual
  pub data Token : Type 0 where
    text : Text → Tokens → Token
    strong em del : Tokens → Token
    codespan : Text → Token
    link_to : (href : String) → Text → Tokens → Token
    br : Token
    image : (alt : Text) → Token
    raw_text : (text raw : Option Text) → Token
    other : Tokens → Token
    other_text : Option Text → Token

  pub data Tokens : Type 0 where
    nil : Tokens
    cons : Token → Tokens → Tokens

-- `...(marks.length ? { marks: [...marks] } : {})`
abbrev pub marks_field : List Mark → Option (List Mark)
marks_field [] = none
marks_field (m ∷ ms) = some (m ∷ ms)

abbrev pub plain : MarkType → Mark
plain type = record { type = type; attrs = none }

abbrev pub link_mark : String → Mark
link_mark href = record { type = link; attrs = some (("href", str href) ∷ []) }

unfoldable pub one_text : Text → List Mark → List InlineNode
one_text s marks = InlineNode.text s (marks_field marks) ∷ []

-- `if (text) out.push(…)`
text_or_nothing : Option Text → List Mark → List InlineNode
unfolding one_text
text_or_nothing none marks = []
text_or_nothing (some []) marks = []
text_or_nothing (some (c ∷ s)) marks = one_text (c ∷ s) marks

-- `anyTok.text ?? anyTok.raw ?? ""`
abbrev pub first_of : Option Text → Option Text → Option Text
first_of none b = b
first_of (some a) b = some a

-- What `walkInline` pushes.
unfoldable mutual
  unfolding one_text text_or_nothing

  pub walk_inline : Token → List Mark → List InlineNode
  walk_inline (text s nil) marks = one_text s marks
  walk_inline (text s (cons t ts)) marks = walk_inline t marks ++ walk_all ts marks
  walk_inline (strong ts) marks = walk_all ts (marks ++ plain bold ∷ [])
  walk_inline (em ts) marks = walk_all ts (marks ++ plain italic ∷ [])
  walk_inline (del ts) marks = walk_all ts (marks ++ plain strike ∷ [])
  walk_inline (codespan s) marks = InlineNode.text s (some (marks ++ plain code ∷ [])) ∷ []
  walk_inline (link_to href s nil) marks =
      InlineNode.text s (some (marks ++ link_mark href ∷ [])) ∷ []
  walk_inline (link_to href s (cons t ts)) marks =
      walk_inline t (marks ++ link_mark href ∷ []) ++ walk_all ts (marks ++ link_mark href ∷ [])
  walk_inline br marks = one_text (10 ∷ []) marks
  walk_inline (image alt) marks = one_text alt marks
  walk_inline (raw_text s raw) marks = text_or_nothing (first_of s raw) marks
  walk_inline (other ts) marks = walk_all ts marks
  walk_inline (other_text s) marks = text_or_nothing s marks

  pub walk_all : Tokens → List Mark → List InlineNode
  walk_all nil marks = []
  walk_all (cons t ts) marks = walk_inline t marks ++ walk_all ts marks

-- `JSON.stringify(m.attrs ?? null)` is a parameter.
module _ (stringify : Option Attrs → String) where
  same_mark : Mark → Mark → Bool
  unfolding name_of string_discrete
  same_mark m n =
      ite (string_discrete (name_of m.type) (name_of n.type))
        (ite (string_discrete (stringify m.attrs) (stringify n.attrs)) true false) false

  -- The comparison of the lengths and `every` in one recursion.
  same_marks : List Mark → List Mark → Bool
  unfolding same_mark
  same_marks [] [] = true
  same_marks (m ∷ ms) (n ∷ ns) = same_mark m n && same_marks ms ns
  same_marks ms ns = false

  unfoldable pub marks_equal : Option (List Mark) → Option (List Mark) → Bool
  unfolding same_marks
  marks_equal none none = true
  marks_equal (some a) (some b) = same_marks a b
  marks_equal a b = false

  -- The merged node, if the two can be merged.
  unfoldable pub join : InlineNode → InlineNode → Option InlineNode
  unfolding marks_equal
  join (InlineNode.text s a) (InlineNode.text t b) =
      if marks_equal a b then some (InlineNode.text (s ++ t) a) else none
  join m n = none

  -- The rest of the loop, where `prev` is the last node of `out`.
  unfoldable pub merge_from : InlineNode → List InlineNode → List InlineNode
  unfolding join
  merge_from prev [] = prev ∷ []
  merge_from prev (cur ∷ nodes) = elim (join prev cur) [
    | some merged ↦ merge_from merged nodes
    | none ↦ prev ∷ merge_from cur nodes
  ]

  unfoldable pub merge_adjacent_text : List InlineNode → List InlineNode
  unfolding merge_from
  merge_adjacent_text [] = []
  merge_adjacent_text (n ∷ nodes) = merge_from n nodes

  unfoldable pub inline_from_tokens : Tokens → List Mark → List InlineNode
  unfolding merge_adjacent_text walk_inline
  inline_from_tokens tokens marks = merge_adjacent_text (walk_all tokens marks)
