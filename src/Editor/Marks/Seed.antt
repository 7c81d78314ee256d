-- ===== src/Editor/Marks/Seed.antt =====
-- What a new Y.Text holds after `applyInlineNodes` of apps/web/src/editor/yjs.ts. Of Yjs the
-- interface states what it documents of insertions at the end: with attributes, exactly these; a
-- text without attributes has those of the character before it, and an embedded object has none.
use block_docs.Base.{
  ℕ, ◌≡◌, String, Option, none, some, List, [], ◌∷◌, ◌++◌, map, length, string_key,
}
use block_docs.JsMap
use block_docs.Text.{Text}
use block_docs.Types.{Mention, InlineNode}
use block_docs.Editor.YText.{Cell, char, chip}
use block_docs.Editor.Marks
use block_docs.Editor.Marks.{
  Format, FormatValue, marks_to_format, Insert, embed, DeltaOp, InsertCall,
}

abbrev pub GlyphAttributes : Type 0
GlyphAttributes = String → Option FormatValue

abbrev pub plain_text : GlyphAttributes
plain_text key = none

-- To Yjs `null` says that there is none.
abbrev present : Option FormatValue → Option FormatValue
present (some FormatValue.null) = none
present o = o

abbrev pub lookup : Format → GlyphAttributes
lookup f key = present (JsMap.get key f)

-- A place of the text.
pub record Glyph : Type 0 where
  pub cell : Cell
  pub attributes : GlyphAttributes

abbrev pub glyphs_of : GlyphAttributes → Text → List Glyph
glyphs_of a = map λ c. record { cell = char c; attributes = a }

-- The attributes of the last place, or those of the start.
unfoldable pub last_attributes : GlyphAttributes → List Glyph → GlyphAttributes
last_attributes start [] = start
last_attributes start (g ∷ gs) = last_attributes g.attributes gs

pub record SeedText : Type 1 where
  pub State : Type 0
  pub empty : State
  pub insert : ℕ → Text → Option Format → State → State
  pub insert_embed : ℕ → Mention → State → State
  pub glyphs : State → List Glyph
  pub glyphs-empty : glyphs empty ≡ []
  pub glyphs-format :
      (s : Text) (f : Format) (y : State)
      → glyphs (insert (length (glyphs y)) s (some f) y) ≡ glyphs y ++ glyphs_of (lookup f) s
  pub glyphs-inherit :
      (s : Text) (y : State)
      → glyphs (insert (length (glyphs y)) s none y)
        ≡ glyphs y ++ glyphs_of (last_attributes plain_text (glyphs y)) s
  pub glyphs-insert_embed :
      (m : Mention) (y : State)
      → glyphs (insert_embed (length (glyphs y)) m y)
        ≡ glyphs y ++ record { cell = chip m; attributes = plain_text } ∷ []

-- The attributes that a text is inserted with.
unfoldable pub taken : Option Format → GlyphAttributes → GlyphAttributes
taken none before = before
taken (some f) before = lookup f

-- What the nodes come to: a text without marks takes over the attributes of the place before it, and
-- a text of no characters leaves nothing.
unfoldable pub inherited : GlyphAttributes → List InlineNode → List Glyph
unfolding taken marks_to_format
inherited before [] = []
inherited before (InlineNode.text s marks ∷ nodes) =
    let a = taken (marks_to_format marks) before in
    glyphs_of a s ++ inherited (last_attributes before (glyphs_of a s)) nodes
inherited before (InlineNode.mention m ∷ nodes) =
    record { cell = chip m; attributes = plain_text } ∷ inherited plain_text nodes

module _ (Y : SeedText) where
  open Y use {State, glyphs}

  unfoldable pub perform_op : ℕ → Insert → Option Format → State → State
  perform_op cursor (Marks.text s) attributes y = Y.insert cursor s attributes y
  perform_op cursor (embed m) attributes y = Y.insert_embed cursor m y

  -- The calls, one after the other.
  unfoldable pub perform : List InsertCall → State → State
  unfolding perform_op
  perform [] y = y
  perform (c ∷ calls) y = perform calls (perform_op c.cursor c.op.insert c.op.attributes y)

  abbrev last : State → GlyphAttributes
  last y = last_attributes plain_text (glyphs y)
