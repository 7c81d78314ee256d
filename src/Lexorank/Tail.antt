-- ===== src/Lexorank/Tail.antt =====
-- The inner loop of apps/web/src/lib/lexorank.ts.
use block_docs.Base.{
  ℕ, zero, suc, ◌+◌, ◌-◌, ◌/◌, ◌≤◌, ◌<◌, ◌≡◌, refl, inl, inr, Option, some, [], ◌∷◌, ◌++◌,
  append_assoc, arith, ltb, Bool-cases, length, All,
}
use block_docs.Text.{Text, Before}
use block_docs.Lexorank.{max_char, mid_char, widen}
use block_docs.Lexorank.Rank.{IsLetter, IsRank, IsRank-cons}

-- The loop returns `r` with a rank after `a` behind it.
abbrev pub Widens : Text → Text → Option Text → Type 0
Widens a r out = (t : Text) × (out ≡ some (r ++ t)) × Before a t × IsRank t

Widens-cons :
    (c : ℕ) (a r : Text) {out : Option Text}
    → IsLetter c
    → Widens a (r ++ c ∷ []) out
    → Widens (c ∷ a) r out
Widens-cons c a r l (t, e, b, k) = (c ∷ t, rw append_assoc at e, inr (refl, b), IsRank-cons c t l k)

-- When the loop gives up, nothing of a text that fits is left unread.
Widens-last :
    (x : ℕ) (xs r : Text)
    → length xs ≤ 0
    → IsLetter x
    → Widens (x ∷ xs) r (some ((r ++ x ∷ []) ++ mid_char ∷ []))
Widens-last x [] r h l = (x ∷ mid_char ∷ [], rw append_assoc, inr (refl, tt), omega arith)
Widens-last x (y ∷ ys) r h l = absurd (omega arith)

-- For `prev` of at most 41 characters, of which `i` have been read: the loop ends, and appends a
-- rank that is after the unread rest of `prev`.
pub widen-Widens :
    (fuel : ℕ) (a : Text) (i : ℕ) (r : Text)
    → 0 < fuel
    → 41 ≤ fuel + i
    → length a ≤ 41 - i
    → All IsLetter a
    → Widens a r (widen fuel a i r)
unfolding widen
widen-Widens zero a i r p q s l = absurd (omega arith)
widen-Widens (suc f) [] i r p q s l = (110 ∷ [], refl, tt, omega arith)
widen-Widens (suc f) (x ∷ xs) i r p q s l = elim (Bool-cases (ltb x max_char)) [
  | inl low ↦ (((x + max_char + 1) / 2) ∷ [], ground arith, ground arith, ground arith)
  | inr high ↦ elim (Bool-cases (ltb 40 (i + 1))) [
    | inl last ↦ rw (high, last) (Widens-last x xs r (ground arith) l.0)
    | inr more ↦
        rw (high, more)
          (Widens-cons x xs r l.0 (
            widen-Widens f xs (i + 1) (r ++ x ∷ []) (ground arith) (ground arith) (ground arith)
              l.1))
  ]
]
