-- ===== src/Editor/Toggle/Laws.antt =====
-- When apps/web/src/components/editor/ContentEditableBlock.tsx sets a mark and when it clears it.
use block_docs.Base.{
  ℕ, zero, suc, ◌+◌, ◌≡◌, refl, ap, Bool, true, not, ◌&&◌, ◌||◌, none, some, List, [], ◌∷◌, ◌++◌,
  ltb, leb, if◌then◌else◌, replicate, arith,
}
use block_docs.Types.{MarkType}
use block_docs.Editor.Marks.{DeltaOp}
use block_docs.Editor.Toggle.{insert_size, has_mark, overlaps, all_have, toggle_value}

-- For each place of the text, whether it has the mark.
unfoldable pub flags : MarkType → List DeltaOp → List Bool
flags mark [] = []
flags mark (op ∷ ops) =
    replicate (insert_size op.insert) (has_mark mark op.attributes) ++ flags mark ops

-- Each place from `start` up to `end` has it, where the list begins at place `pos`.
unfoldable pub each_has : ℕ → ℕ → ℕ → List Bool → Bool
each_has start end pos [] = true
each_has start end pos (f ∷ fs) =
    (not (leb start pos && ltb pos end) || f) && each_has start end (pos + 1) fs

each_has-replicate :
    (start end pos size : ℕ) (b : Bool) (fs : List Bool)
    → each_has start end pos (replicate size b ++ fs)
      ≡ (not (overlaps start end pos size) || b) && each_has start end (pos + size) fs
unfolding each_has overlaps
each_has-replicate start end pos zero b fs =
    ground (arith, ap (λ p. each_has start end p fs) {x = pos} {y = pos + 0})
each_has-replicate start end pos (suc size) b fs = ground (
  arith,
  each_has-replicate start end (pos + 1) size b fs,
  ap (λ p. each_has start end p fs) {x = pos + 1 + size} {y = pos + suc size},
)

all_have-flags :
    (mark : MarkType) (start end pos : ℕ) (ops : List DeltaOp)
    → all_have mark start end pos ops ≡ each_has start end pos (flags mark ops)
unfolding all_have flags each_has
all_have-flags mark start end pos [] = refl
all_have-flags mark start end pos (op ∷ ops) = ground (
  arith,
  all_have-flags mark start end (pos + insert_size op.insert) ops,
  each_has-replicate start end pos (insert_size op.insert) (has_mark mark op.attributes)
      (flags mark ops),
)

-- Toggling a mark on a range clears it exactly if every place of the range has it, and sets it
-- otherwise, whatever the runs of the text; on an empty range nothing is done.
pub toggle_value_lem :
    (mark : MarkType) (start end : ℕ) (ops : List DeltaOp)
    → toggle_value mark start end ops
      ≡ (if leb end start then none else some (not (each_has start end 0 (flags mark ops))))
unfolding toggle_value
toggle_value_lem mark start end ops = rw (all_have-flags mark start end 0 ops) refl
