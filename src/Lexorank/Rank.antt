-- ===== src/Lexorank/Rank.antt =====
-- Which strings are ranks: lower-case letters, not empty, and not ending in the lowest letter
-- (nothing fits between `s` and `s ++ "a"`).
use block_docs.Base.{ℕ, ◌≤◌, ◌<◌, ◌⊎◌, [], ◌∷◌, ◌≡◌, arith, All}
use block_docs.Text.{Text, Before}
use block_docs.Lexorank.{min_char, max_char}

abbrev pub IsLetter : ℕ → Type 0
IsLetter c = (min_char ≤ c) × (c ≤ max_char)

abbrev pub IsRank : Text → Type 0
IsRank [] = ⊥
IsRank (c ∷ []) = IsLetter c × (min_char < c)
IsRank (c ∷ d ∷ s) = IsLetter c × IsRank (d ∷ s)

-- `a` is before `b`, where an empty `b` stands for the end of the order.
abbrev pub Gap : Text → Text → Type 0
Gap a b = (b ≡ []) ⊎ Before a b

abbrev pub IsRankOrEmpty : Text → Type 0
IsRankOrEmpty [] = Unit
IsRankOrEmpty (c ∷ s) = IsRank (c ∷ s)

pub IsRank-cons : (c : ℕ) (t : Text) → IsLetter c → IsRank t → IsRank (c ∷ t)
IsRank-cons c [] l h = absurd h
IsRank-cons c (d ∷ t) l h = (l, h)

pub IsRank-tail : (c d : ℕ) (t : Text) → IsRank (c ∷ d ∷ t) → IsRank (d ∷ t)
IsRank-tail c d t h = h.1

pub IsRank-All : (s : Text) → IsRank s → All IsLetter s
IsRank-All [] h = absurd h
IsRank-All (c ∷ []) h = (h.0, tt)
IsRank-All (c ∷ d ∷ s) h = (h.0, IsRank-All (d ∷ s) h.1)

-- A rank that begins with the lowest letter goes on.
pub IsRank-low : (c : ℕ) (s : Text) → min_char ≡ c → IsRank (c ∷ s) → IsRank s
IsRank-low c [] e h = omega arith
IsRank-low c (d ∷ s) e h = h.1
