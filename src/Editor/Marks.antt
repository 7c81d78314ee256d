-- ===== src/Editor/Marks.antt =====
-- The second half of apps/web/src/editor/yjs.ts: inline nodes as pieces of a Y.Text. What is written
-- is a list of calls, what is read a list of delta operations; what a Y.Text makes of the calls is
-- the interface of Editor.Marks.Seed.
pub mod Laws
pub mod Seed
use block_docs.Base.{
  ℕ, ◌+◌, String, Bool, true, false, Option, none, some, List, [], ◌∷◌, ite, length,
  string_discrete, string_key,
}
use block_docs.Text.{Text}
use block_docs.JsMap
use block_docs.JsMap.{JsMap}
use block_docs.Types.{
  MarkType, bold, italic, strike, code, link, comment, Mark, Mention, InlineNode, Attrs,
}

-- A value of a format object; numbers and strings are `other`.
pub data FormatValue : Type 0 where
  null other : FormatValue
  bool : Bool → FormatValue
  object : Attrs → FormatValue

abbrev pub Format : Type 0
Format = JsMap String FormatValue

unfoldable pub name_of : MarkType → String
name_of bold = "bold"
name_of italic = "italic"
name_of strike = "strike"
name_of code = "code"
name_of link = "link"
name_of comment = "comment"

-- `mark.attrs ?? true`
attrs_value : Option Attrs → FormatValue
attrs_value none = bool true
attrs_value (some a) = object a

value_of : MarkType → Option Attrs → FormatValue
unfolding attrs_value
value_of link a = attrs_value a
value_of comment a = attrs_value a
value_of _ a = bool true

set_marks : List Mark → Format → Format
unfolding value_of name_of JsMap.set string_discrete
set_marks [] fmt = fmt
set_marks (m ∷ ms) fmt = set_marks ms (JsMap.set (name_of m.type) (value_of m.type m.attrs) fmt)

unfoldable pub marks_to_format : Option (List Mark) → Option Format
unfolding set_marks
marks_to_format none = none
marks_to_format (some []) = none
marks_to_format (some (m ∷ ms)) = some (set_marks (m ∷ ms) [])

-- The mark that a key names.
type_of : String → Option MarkType
unfolding string_discrete
type_of key = ite (string_discrete key "link") (some link) (
    ite (string_discrete key "comment") (some comment) (
      ite (string_discrete key "bold") (some bold) (
        ite (string_discrete key "italic") (some italic) (
          ite (string_discrete key "strike") (some strike)
            (ite (string_discrete key "code") (some code) none)))))

-- The mark of a value that is not `false` and not nullish.
mark_with : Option MarkType → FormatValue → Option Mark
mark_with none value = none
mark_with (some link) (object a) = some (record { type = link; attrs = some a })
mark_with (some link) value = none
mark_with (some comment) (object a) = some (record { type = comment; attrs = some a })
mark_with (some comment) value = none
mark_with (some type) value = some (record { type = type; attrs = none })

mark_of : String → FormatValue → Option Mark
unfolding mark_with type_of
mark_of key null = none
mark_of key (bool false) = none
mark_of key value = mark_with (type_of key) value

push : Option Mark → List Mark → List Mark
push none ms = ms
push (some m) ms = m ∷ ms

read_marks : Format → List Mark
unfolding push mark_of
read_marks [] = []
read_marks ((key, value) ∷ fmt) = push (mark_of key value) (read_marks fmt)

-- `marks.length > 0 ? marks : undefined`
abbrev pub non_empty : List Mark → Option (List Mark)
non_empty [] = none
non_empty (m ∷ ms) = some (m ∷ ms)

unfoldable pub format_to_marks : Option Format → Option (List Mark)
unfolding read_marks
format_to_marks none = none
format_to_marks (some fmt) = non_empty (read_marks fmt)

-- What is inserted: a text, or an embedded object with a mention.
pub data Insert : Type 0 where
  text : Text → Insert
  embed : Mention → Insert

pub record DeltaOp : Type 0 where
  pub insert : Insert
  pub attributes : Option Format

pub record InsertCall : Type 0 where
  pub cursor : ℕ
  pub op : DeltaOp

unfoldable pub apply_from : ℕ → List InlineNode → List InsertCall
unfolding marks_to_format
apply_from cursor [] = []
apply_from cursor (InlineNode.text s marks ∷ nodes) =
    record { cursor = cursor; op = record { insert = text s; attributes = marks_to_format marks } }
    ∷ apply_from (cursor + length s) nodes
apply_from cursor (InlineNode.mention m ∷ nodes) =
    record { cursor = cursor; op = record { insert = embed m; attributes = none } }
    ∷ apply_from (cursor + 1) nodes

unfoldable pub apply_inline_nodes : List InlineNode → List InsertCall
unfolding apply_from
apply_inline_nodes nodes = apply_from 0 nodes

unfoldable pub read_node : Insert → Option Format → InlineNode
unfolding format_to_marks
read_node (text s) attributes = InlineNode.text s (format_to_marks attributes)
read_node (embed m) attributes = InlineNode.mention m

unfoldable pub read_inline_nodes : List DeltaOp → List InlineNode
unfolding read_node
read_inline_nodes [] = []
read_inline_nodes (op ∷ ops) = read_node op.insert op.attributes ∷ read_inline_nodes ops
