-- ===== src/Editor/Toggle.antt =====
-- `toggleMarkRange` of apps/web/src/components/editor/ContentEditableBlock.tsx, whose loop also stands
-- in `toggleMark` there.
pub mod Laws
use block_docs.Base.{
  ℕ, ◌+◌, ◌≡◌, String, Bool, true, false, not, ◌&&◌, Option, none, some, List, [], ◌∷◌, length, ltb,
  leb, if◌then◌else◌, string_discrete, string_key,
}
use block_docs.JsMap
use block_docs.Types.{MarkType}
use block_docs.Editor.Marks.{FormatValue, bool, Format, name_of, Insert, text, embed, DeltaOp}

-- `typeof op.insert === "string" ? op.insert.length : 1`
unfoldable pub insert_size : Insert → ℕ
insert_size (text s) = length s
insert_size (embed m) = 1

is_true : Option FormatValue → Bool
is_true (some (bool true)) = true
is_true o = false

-- `op.attributes && op.attributes[mark] === true`
unfoldable pub has_mark : MarkType → Option Format → Bool
unfolding is_true JsMap.get string_discrete name_of
has_mark mark none = false
has_mark mark (some attributes) = is_true (JsMap.get (name_of mark) attributes)

-- `Math.min(pos + size, end) - Math.max(pos, start) > 0`, over signed numbers.
unfoldable pub overlaps : ℕ → ℕ → ℕ → ℕ → Bool
overlaps start end pos size =
    ltb (if ltb pos start then start else pos) (if ltb (pos + size) end then pos + size else end)

unfoldable pub all_have : MarkType → ℕ → ℕ → ℕ → List DeltaOp → Bool
unfolding insert_size has_mark overlaps
all_have mark start end pos [] = true
all_have mark start end pos (op ∷ ops) =
    let size = insert_size op.insert in
    let rest = all_have mark start end (pos + size) ops in
    if overlaps start end pos size && not (has_mark mark op.attributes) then false else rest

-- The value that the range is formatted with: `null`, which clears the mark, is false. No range, no
-- call.
unfoldable pub toggle_value : MarkType → ℕ → ℕ → List DeltaOp → Option Bool
unfolding all_have
toggle_value mark start end ops =
    if leb end start then none else some (not (all_have mark start end 0 ops))
