-- ===== src/Lexorank/Tests.antt =====
-- Runs of `midpoint`, and its theorems at concrete input.
use block_docs.Base.{◌≡◌, refl, none, some, [], ◌∷◌, arith}
use block_docs.Text.{Text, Before}
use block_docs.Lexorank.{scan, widen, midpoint, midpoint?}
use block_docs.Lexorank.Rank.{IsRank}
use block_docs.Lexorank.Midpoint.{Between, midpoint-Between}
use block_docs.Lexorank.Total.{midpoint?-IsDone, midpoint_stuck, full}

abbrev m_text : Text
m_text = b'm' ∷ []

abbrev n_text : Text
n_text = b'n' ∷ []

midpoint_adjacent : midpoint (some m_text) (some n_text) ≡ b'm' ∷ b'n' ∷ []
unfolding midpoint scan widen
midpoint_adjacent = refl

midpoint_first : midpoint none none ≡ b'n' ∷ []
unfolding midpoint scan
midpoint_first = refl

midpoint_before : midpoint none (some m_text) ≡ b'g' ∷ []
unfolding midpoint scan
midpoint_before = refl

midpoint-Between_example :
    Between (some m_text) (midpoint (some m_text) (some n_text)) (some n_text)
    × IsRank (midpoint (some m_text) (some n_text))
midpoint-Between_example =
    midpoint-Between (some m_text) (some n_text) (omega arith) (omega arith) (omega arith)
      (omega arith)

midpoint?-IsDone_example : (s : Text) × (midpoint? (some n_text) (some m_text) ≡ some s)
midpoint?-IsDone_example = midpoint?-IsDone (some n_text) (some m_text)

midpoint_stuck_example :
    (midpoint (some (full m_text)) none ≡ full m_text)
    × (¬ Before m_text m_text → ¬ Before (full m_text) (midpoint (some (full m_text)) none))
midpoint_stuck_example = midpoint_stuck m_text
