-- ===== src/Editor/YText/Splice.antt =====
-- Lemmas on replacing a part of a list of cells.
use block_docs.Base.{
  ℕ, zero, suc, Bool, ◌+◌, ◌≤◌, ◌≡◌, refl, ap, ap₂, List, [], ◌∷◌, ◌++◌, length, length-append,
  take, drop, arith,
}
use block_docs.Text.{Text}
use block_docs.Editor.YText.{Cell, char, chars, splice, is_high, is_cut}

-- Nothing is replaced by nothing.
pub splice_nothing : (a : ℕ) (xs : List Cell) → splice a a [] xs ≡ xs
splice_nothing zero xs = refl
splice_nothing (suc a) [] = refl
splice_nothing (suc a) (x ∷ xs) = ap (λ l. x ∷ l) (splice_nothing a xs)

pub length-take : (a : ℕ) (xs : List Cell) → a ≤ length xs → length (take a xs) ≡ a
length-take zero xs h = refl
length-take (suc a) [] h = absurd (omega (arith, h))
length-take (suc a) (x ∷ xs) h = omega (arith, length-take a xs)

pub length-drop : (b : ℕ) (xs : List Cell) → b ≤ length xs → length (drop b xs) + b ≡ length xs
length-drop zero xs h = omega arith
length-drop (suc b) [] h = absurd (omega (arith, h))
length-drop (suc b) (x ∷ xs) h = omega (arith, length-drop b xs)

pub take-take : (a : ℕ) (xs ys : List Cell) → a ≤ length xs → take a (take a xs ++ ys) ≡ take a xs
take-take zero xs ys h = refl
take-take (suc a) [] ys h = absurd (omega (arith, h))
take-take (suc a) (x ∷ xs) ys h = ap (λ l. x ∷ l) (take-take a xs ys (omega (arith, h)))

pub drop-take : (a : ℕ) (xs ys : List Cell) → a ≤ length xs → drop a (take a xs ++ ys) ≡ ys
drop-take zero xs ys h = refl
drop-take (suc a) [] ys h = absurd (omega (arith, h))
drop-take (suc a) (x ∷ xs) ys h = drop-take a xs ys (omega (arith, h))

pub length-chars : (t : Text) → length (chars t) ≡ length t
length-chars [] = refl
length-chars (c ∷ t) = ap suc (length-chars t)

pub take-chars : (t : Text) (rest : List Cell) → take (length t) (chars t ++ rest) ≡ chars t
take-chars [] rest = refl
take-chars (c ∷ t) rest = ap (λ l. char c ∷ l) (take-chars t rest)

pub length-splice :
    (a b : ℕ) (new xs : List Cell)
    → a ≤ length xs
    → b ≤ length xs
    → length (splice a b new xs) + b ≡ length xs + length new + a
length-splice a b new xs h k = omega (
  arith,
  length-append (take a xs) (new ++ drop b xs),
  length-append new (drop b xs),
  length-take a xs h,
  length-drop b xs k,
)

-- To delete and then to insert is to replace.
pub splice-splice :
    (a b : ℕ) (new xs : List Cell)
    → a ≤ length xs
    → splice a a new (splice a b [] xs) ≡ splice a b new xs
splice-splice a b new xs h =
    ap₂ (λ l m. l ++ (new ++ m)) (take-take a xs (drop b xs) h) (drop-take a xs (drop b xs) h)

-- Whether a place is inside of a pair is told by what stands before it.
pub is_cut-take :
    (before : Bool) (a : ℕ) (xs ys : List Cell)
    → a ≤ length xs
    → is_cut before a (take a xs ++ ys) ≡ is_cut before a xs
unfolding is_cut
is_cut-take before zero xs ys h = refl
is_cut-take before (suc a) [] ys h = absurd (omega (arith, h))
is_cut-take before (suc a) (x ∷ xs) ys h = is_cut-take (is_high x) a xs ys (omega (arith, h))
