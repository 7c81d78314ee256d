-- ===== src/Editor/Renderer.antt =====
-- apps/web/src/editor/inline-renderer.ts: the DOM that inline nodes are drawn as, and offsets in it.
pub mod Offsets
use mathlib.Core.List.{flatten}
use block_docs.Base.{
  ℕ, zero, suc, ◌+◌, ◌-◌, String, Bool, true, false, Option, none, some, get_or, List, [], ◌∷◌,
  ◌++◌, map, take, length, get_elem?, leb, if◌then◌else◌, string_key,
}
use block_docs.Text.{Text}
use block_docs.JsMap
use block_docs.Types.{
  MarkType, bold, italic, strike, code, link, comment, Json, null, bool, num, str, Attrs, Mark,
  Mention, InlineNode,
}
use block_docs.Ws.Replay.{truthy}

abbrev pub Attributes : Type 0
Attributes = List (String × String)

-- A text node, an element with one child, or one with none; the code makes no others.
pub data Node : Type 0 where
  text_node : Text → Node
  element : (tag : String) → Attributes → Node → Node
  childless : (tag : String) → Attributes → Node

-- `span.textContent = label` adds no child for the empty string.
with_text : String → Attributes → Text → Node
with_text tag attributes [] = childless tag attributes
with_text tag attributes (c ∷ t) = element tag attributes (text_node (c ∷ t))

-- An attribute that is set if it has a value.
optional : String → Option String → Attributes → Attributes
optional name none rest = rest
optional name (some value) rest = (name, value) ∷ rest

-- `show` is `String` of a number, `stringify` the conversion that an assignment to `href` makes.
module _ (show : ℕ → String) (stringify : Json → String) where
  -- A value that is not falsy, as a string.
  set_value : Option Json → Option String
  unfolding truthy
  set_value none = none
  set_value (some null) = none
  set_value (some (bool false)) = none
  set_value (some (num zero)) = none
  set_value (some (str s)) = truthy (some s)
  set_value (some v) = some (stringify v)

  -- `attrs?.[key]`
  attribute : String → Option Attrs → Option String
  unfolding set_value JsMap.get
  attribute key none = none
  attribute key (some attrs) = set_value (JsMap.get key attrs)

  wrapper : MarkType → Option Attrs → Node → Node
  unfolding optional attribute
  wrapper link attrs child =
      element "a"
        (optional "href" (attribute "href" attrs)
          (("target", "_blank") ∷ ("rel", "noreferrer noopener") ∷ []))
        child
  wrapper comment attrs child =
      element "span"
        (("class", "comment-anchor") ∷ optional "data-comment-id" (attribute "commentId" attrs) [])
        child
  wrapper bold attrs child = element "strong" [] child
  wrapper italic attrs child = element "em" [] child
  wrapper strike attrs child = element "s" [] child
  wrapper code attrs child = element "code" [] child

  wrap_mark : Node → Mark → Node
  unfolding wrapper
  wrap_mark child mark = wrapper mark.type mark.attrs child

  wrap_marks : Node → List Mark → Node
  unfolding wrap_mark
  wrap_marks el [] = el
  wrap_marks el (mark ∷ marks) = wrap_marks (wrap_mark el mark) marks

  unfoldable pub build_inline_node : InlineNode → Node
  unfolding wrap_marks with_text
  build_inline_node (InlineNode.mention m) =
      with_text "span"
        (("class", "mention")
          ∷ ("data-user-id", show m.user_id)
          ∷ ("contenteditable", "false")
          ∷ [])
        m.label
  build_inline_node (InlineNode.text t marks) = wrap_marks (text_node t) (get_or marks [])

  -- The children that `root` has afterwards.
  unfoldable pub render_inline_nodes : List InlineNode → List Node
  unfolding build_inline_node
  render_inline_nodes [] = childless "br" [] ∷ []
  render_inline_nodes (n ∷ ns) = map build_inline_node (n ∷ ns)

-- The text nodes below a node, in document order.
unfoldable pub texts : Node → List Text
texts (text_node t) = t ∷ []
texts (element tag attributes child) = texts child
texts (childless tag attributes) = []

unfoldable pub all_texts : List Node → List Text
unfolding texts
all_texts [] = []
all_texts (n ∷ ns) = texts n ++ all_texts ns

-- In a text node, by its place among them, or at the end of the root.
pub data Caret : Type 0 where
  in_text : (index offset : ℕ) → Caret
  at_end : Caret

next_text : Caret → Caret
next_text (in_text i k) = in_text (suc i) k
next_text at_end = at_end

-- The loop of `setSelectionOffset` over the text nodes.
unfoldable pub locate : ℕ → List Text → Caret
unfolding next_text
locate remaining [] = at_end
locate remaining (t ∷ ts) =
    let rest = locate (remaining - length t) ts in
    if leb remaining (length t) then in_text 0 remaining else next_text rest

-- The string of the range from the start of the root to the caret.
unfoldable pub text_before : List Text → Caret → Text
text_before ts (in_text i k) = flatten (take i ts) ++ take k (get_or (get_elem? ts i) [])
text_before ts at_end = flatten ts

unfoldable pub set_selection_offset : List Node → ℕ → Caret
unfolding locate all_texts
set_selection_offset root offset = locate offset (all_texts root)

unfoldable pub get_selection_offset : List Node → Caret → ℕ
unfolding text_before all_texts
get_selection_offset root caret = length (text_before (all_texts root) caret)

unfoldable pub content_length : List Node → ℕ
unfolding all_texts
content_length root = length (flatten (all_texts root))
