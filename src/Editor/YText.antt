-- ===== src/Editor/YText.antt =====
-- What the editor uses of `Y.Text` of the library Yjs, as operations on an unknown state with their
-- documented effect on what the text holds: characters, and embedded mentions of one place each.
pub mod Splice
use block_docs.Base.{
  ℕ, zero, suc, Bool, false, ◌&&◌, leb, ◌+◌, ◌≤◌, ◌≡◌, List, [], ◌∷◌, ◌++◌, map, length, take, drop,
}
use block_docs.Text.{Text}
use block_docs.Types.{Mention, MarkType}
use block_docs.Editor.Marks.{Insert, embed, DeltaOp}
use block_docs.Editor.Marks

pub data Cell : Type 0 where
  char : ℕ → Cell
  chip : Mention → Cell

abbrev pub chars : Text → List Cell
chars = map char

-- The part from `a` up to `b` is replaced.
abbrev pub splice : ℕ → ℕ → List Cell → List Cell → List Cell
splice a b new cells = take a cells ++ (new ++ drop b cells)

-- The characters, and the number of mentions.
unfoldable pub text_of : List Cell → Text
text_of [] = []
text_of (char c ∷ cells) = c ∷ text_of cells
text_of (chip m ∷ cells) = text_of cells

unfoldable pub chips : List Cell → ℕ
chips [] = 0
chips (char c ∷ cells) = chips cells
chips (chip m ∷ cells) = suc (chips cells)

-- What the operations of a delta hold.
unfoldable pub held : Insert → List Cell
held (Marks.text s) = chars s
held (embed m) = chip m ∷ []

unfoldable pub delta_cells : List DeltaOp → List Cell
unfolding held
delta_cells [] = []
delta_cells (op ∷ ops) = held op.insert ++ delta_cells ops

-- The first half of a surrogate pair.
unfoldable pub is_high : Cell → Bool
is_high (char c) = leb 55296 c && leb c 56319
is_high (chip m) = false

-- Whether the cell before the place `i` is one; `before` tells it of the start.
unfoldable pub is_cut : Bool → ℕ → List Cell → Bool
unfolding is_high
is_cut before zero cells = before
is_cut before (suc i) [] = false
is_cut before (suc i) (c ∷ cells) = is_cut (is_high c) i cells

-- Where Yjs can split the text and keep its characters: inside of a surrogate pair it replaces both
-- halves by U+FFFD.
abbrev pub IsBoundary : ℕ → List Cell → Type 0
IsBoundary i cells = is_cut false i cells ≡ false

pub record YText : Type 1 where
  pub State : Type 0
  pub insert : ℕ → Text → State → State
  pub delete : ℕ → ℕ → State → State
  pub format : ℕ → ℕ → MarkType → Bool → State → State
  pub to_delta : State → List DeltaOp
  pub to_string : State → Text
  pub cells : State → List Cell
  pub to_string-cells : (y : State) → to_string y ≡ text_of (cells y)
  pub to_delta-cells : (y : State) → delta_cells (to_delta y) ≡ cells y
  pub cells-insert :
      (i : ℕ) (s : Text) (y : State)
      → i ≤ length (cells y)
      → IsBoundary i (cells y)
      → cells (insert i s y) ≡ splice i i (chars s) (cells y)
  pub cells-delete :
      (i n : ℕ) (y : State)
      → i + n ≤ length (cells y)
      → IsBoundary i (cells y)
      → IsBoundary (i + n) (cells y)
      → cells (delete i n y) ≡ splice i (i + n) [] (cells y)
  pub length-delete :
      (i n : ℕ) (y : State)
      → i + n ≤ length (cells y)
      → length (cells (delete i n y)) + n ≡ length (cells y)
  pub cells-format :
      (i n : ℕ) (mark : MarkType) (set : Bool) (y : State)
      → i + n ≤ length (cells y)
      → IsBoundary i (cells y)
      → IsBoundary (i + n) (cells y)
      → cells (format i n mark set y) ≡ cells y
