-- ===== src/Lexorank/Total.antt =====
-- The ends of the loops of apps/web/src/lib/lexorank.ts.
use block_docs.Base.{
  ℕ, zero, suc, ◌+◌, ◌≤◌, ◌<◌, ◌≡◌, ◌≢◌, ap, ◌∙◌, inl, inr, false, Option, none, some, Option-cases,
  lt→ltb, [], ◌∷◌, ◌++◌, arith, ltb, length, replicate, append_assoc,
}
use block_docs.Text.{Text, Before}
use block_docs.Lexorank.{
  min_char, max_char, mid_char, widen, widen_fuel, scan, scan_fuel, midpoint, midpoint?, or_empty,
}

abbrev IsDone : Option Text → Type 0
IsDone out = out ≢ none

widen-IsDone :
    (fuel : ℕ) (a : Text) (i : ℕ) (r : Text) → 0 < fuel → 41 ≤ fuel + i → IsDone (widen fuel a i r)
unfolding widen
widen-IsDone zero a i r p q = absurd (omega arith)
widen-IsDone (suc f) [] i r p q = ground arith
widen-IsDone (suc f) (x ∷ xs) i r p q = ground (arith, widen-IsDone f xs (i + 1) (r ++ x ∷ []))

scan-IsDone :
    (fuel : ℕ) (a b : Text) (i : ℕ) (r : Text)
    → length a + length b < fuel
    → IsDone (scan fuel a b i r)
unfolding scan
scan-IsDone zero a b i r h = absurd (omega arith)
scan-IsDone (suc f) [] [] i r h = ground arith
scan-IsDone (suc f) [] (y ∷ ys) i r h = ground (
  arith,
  scan-IsDone f [] ys (i + 1) (r ++ min_char ∷ []),
  widen-IsDone widen_fuel [] (i + 1) (r ++ min_char ∷ []) (omega arith) (omega arith),
)
scan-IsDone (suc f) (x ∷ xs) [] i r h = ground (
  arith,
  scan-IsDone f xs [] (i + 1) (r ++ x ∷ []),
  widen-IsDone widen_fuel xs (i + 1) (r ++ x ∷ []) (omega arith) (omega arith),
)
scan-IsDone (suc f) (x ∷ xs) (y ∷ ys) i r h = ground (
  arith,
  scan-IsDone f xs ys (i + 1) (r ++ x ∷ []),
  widen-IsDone widen_fuel xs (i + 1) (r ++ x ∷ []) (omega arith) (omega arith),
)

-- Whatever the arguments, also out of order or outside the alphabet, the loops of `midpoint` end
-- within the fuel.
pub midpoint?-IsDone : (prev next : Option Text) → (s : Text) × (midpoint? prev next ≡ some s)
midpoint?-IsDone prev next = elim (Option-cases (midpoint? prev next)) [
  | inl e ↦ absurd (
      scan-IsDone (scan_fuel (or_empty prev) (or_empty next)) (or_empty prev) (or_empty next) 0 []
        (omega arith) e)
  | inr found ↦ found
]

-- The inner loop past 40 letters `z`: it gives up, and drops what follows them in `prev`.
widen-replicate :
    (fuel k i : ℕ) (w r : Text)
    → k < fuel
    → k + i ≡ 40
    → widen fuel (replicate (suc k) max_char ++ w) i r
      ≡ some (r ++ (replicate (suc k) max_char ++ mid_char ∷ []))
unfolding widen
widen-replicate zero k i w r h e = absurd (omega arith)
widen-replicate (suc f) zero i w r h e = rw (lt→ltb 40 (i + 1) (ground arith)) (rw append_assoc)
widen-replicate (suc f) (suc k) i w r h e =
    let more : ltb 40 (i + 1) ≡ false = ground arith in
    rw more (
      widen-replicate f k (i + 1) w (r ++ max_char ∷ []) (omega arith) (omega arith)
      ∙ ap some (append_assoc r _ _))

abbrev pub full : Text → Text
full w = replicate 41 max_char ++ w

scan-full :
    (fuel : ℕ) (w : Text) → 0 < fuel → scan fuel (full w) [] 0 [] ≡ some (full (mid_char ∷ []))
unfolding scan
scan-full zero w h = absurd (omega arith)
scan-full (suc f) w h =
    widen-replicate widen_fuel 39 1 w (max_char ∷ []) (omega arith) (omega arith)

Before-drop : (p s t : Text) → Before (p ++ s) (p ++ t) → Before s t
Before-drop [] s t h = h
Before-drop (c ∷ p) s t h = ground (arith, Before-drop p s t)

-- Appending after a position of 41 letters `z`, whatever follows them, gives one and the same
-- position; so the result is not after `prev` unless what follows them is before the letter `m`.
pub midpoint_stuck :
    (w : Text)
    → (midpoint (some (full w)) none ≡ full (mid_char ∷ []))
      × (¬ Before w (mid_char ∷ []) → ¬ Before (full w) (midpoint (some (full w)) none))
midpoint_stuck w =
    (stuck, λ h b. h (Before-drop (replicate 41 max_char) w (mid_char ∷ []) (rw stuck at b)))
  where
    stuck : midpoint (some (full w)) none ≡ full (mid_char ∷ [])
    stuck = unfold midpoint in rw (scan-full (scan_fuel (full w) []) w (omega arith))
