-- ===== src/Blocks.antt =====
-- The components of apps/web/src/components/blocks: what of a block's attributes they show and
-- write, and which callbacks they hand to the editor of their text.
pub mod Attributes
pub mod Upload
mod Tests
use block_docs.Base.{
  ℕ, zero, suc, ◌+◌, String, Bool, true, false, Option, none, some, get_or, [], ◌∷◌, ite,
  string_key, string_discrete, if◌then◌else◌,
}
use block_docs.JsMap
use block_docs.Types.{BlockType, divider, image, Attrs, Json, null, bool, num, str, Block}
use block_docs.Types
use block_docs.Store.{BlockStoreState}
use block_docs.Store.Local.{update_attrs}
use block_docs.Editor.Input.{Callback, on_enter, on_slash}

-- `block.content.attrs?.[key]`
unfoldable pub block_attr : String → Block → Option Json
unfolding JsMap.get string_discrete
block_attr key b = JsMap.get key (get_or b.content.attrs [])

-- `value ?? default`
unfoldable pub or_default : Option Json → Json → Json
or_default none d = d
or_default (some null) d = d
or_default (some v) d = v

-- `!!value`
unfoldable pub is_truthy : Option Json → Bool
unfolding string_discrete
is_truthy none = false
is_truthy (some null) = false
is_truthy (some (bool b)) = b
is_truthy (some (num zero)) = false
is_truthy (some (str s)) = ite (string_discrete s "") false true
is_truthy (some v) = true

-- The to-do item's checkbox.
unfoldable pub is_checked : Block → Bool
unfolding is_truthy block_attr
is_checked b = is_truthy (block_attr "checked" b)

unfoldable pub set_checked : String → Bool → BlockStoreState → BlockStoreState
unfolding update_attrs
set_checked id checked s = update_attrs id (("checked", bool checked) ∷ []) s

-- The code block's field for the language.
unfoldable pub language : Block → Json
unfolding or_default block_attr
language b = or_default (block_attr "language" b) (str "")

unfoldable pub set_language : String → String → BlockStoreState → BlockStoreState
unfolding update_attrs
set_language id value s = update_attrs id (("language", str value) ∷ []) s

unfoldable pub heading_level : Block → Json
unfolding or_default block_attr
heading_level b = or_default (block_attr "level" b) (num 1)

unfoldable pub callout_color : Block → Json
unfolding or_default block_attr
callout_color b = or_default (block_attr "color" b) (str "blue")

-- The number before an item of a numbered list.
unfoldable pub marker : (index : Option ℕ) → ℕ
marker index = get_or index 0 + 1

-- Which callbacks of the document's editor a block's component hands on. A divider and an image have
-- no text.
unfoldable pub hands_on : BlockType → Callback → Bool
hands_on Types.code on_enter = false
hands_on Types.code on_slash = false
hands_on divider f = false
hands_on image f = false
hands_on type f = true

-- `onEnter?.()`: the callback that runs, where a block's text asks for one.
unfoldable pub ran : BlockType → Option Callback → Option Callback
unfolding hands_on
ran type none = none
ran type (some f) = if hands_on type f then some f else none
