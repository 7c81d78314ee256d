-- ===== src/Lexorank.antt =====
-- apps/web/src/lib/lexorank.ts: position strings between two others. A text is read from the
-- front, so `a[i]` is the head of the part of `a` that the loop has not read yet.
pub mod Rank
pub mod Tail
pub mod Midpoint
pub mod Total
mod Tests
use block_docs.Base.{
  ℕ, zero, suc, ◌+◌, ◌/◌, Option, none, some, get_or, [], ◌∷◌, ◌++◌, ltb, ◌==◌, if◌then◌else◌,
  length, head?, tail,
}
use block_docs.Text.{Text}

abbrev pub min_char : ℕ
min_char = b'a'

abbrev pub max_char : ℕ
max_char = b'z'

abbrev pub mid_char : ℕ
mid_char = (min_char + max_char) / 2

abbrev pub code : Option ℕ → ℕ → ℕ
code none fallback = fallback
code (some ch) fallback = ch

-- The inner `while (true)`: past a gap of one, room is made in the tail of `prev`.
unfoldable pub widen : ℕ → Text → ℕ → Text → Option Text
widen zero a i result = none
widen (suc fuel) a i result =
    let next_a = code (head? a) min_char in
    let longer = widen fuel (tail a) (i + 1) (result ++ next_a ∷ []) in
    if ltb next_a max_char
    then some (result ++ ((next_a + max_char + 1) / 2) ∷ [])
    else if ltb 40 (i + 1)
    then some ((result ++ next_a ∷ []) ++ mid_char ∷ [])
    else longer

-- Each round of `widen` raises `i`, and it stops at the latest when `i` passes 40.
abbrev pub widen_fuel : ℕ
widen_fuel = 42

-- The outer `while (true)`. `bc - ac > 1` is over signed numbers, so it is `ac + 1 < bc`.
unfoldable pub scan : ℕ → Text → Text → ℕ → Text → Option Text
unfolding widen
scan zero a b i result = none
scan (suc fuel) a b i result =
    let ac = code (head? a) min_char in
    let bc = code (head? b) (max_char + 1) in
    let same = scan fuel (tail a) (tail b) (i + 1) (result ++ ac ∷ []) in
    if ac == bc
    then same
    else if ltb (ac + 1) bc
    then some (result ++ ((ac + bc) / 2) ∷ [])
    else widen widen_fuel (tail a) (i + 1) (result ++ ac ∷ [])

-- Each round reads a character of `a` or of `b`, or is the last.
abbrev pub scan_fuel : Text → Text → ℕ
scan_fuel a b = length a + length b + 1

abbrev pub or_empty : Option Text → Text
or_empty s = get_or s []

abbrev pub midpoint? : Option Text → Option Text → Option Text
midpoint? prev next =
    let a = or_empty prev in let b = or_empty next in scan (scan_fuel a b) a b 0 []

-- `midpoint?` always has a value, so the empty default is never taken.
unfoldable pub midpoint : Option Text → Option Text → Text
midpoint prev next = or_empty (midpoint? prev next)
