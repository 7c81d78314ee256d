-- ===== src/Text.antt =====
-- JavaScript strings that the program looks into, as lists of UTF-16 code units, with the order
-- that `<` compares them by. (Strings that are only compared for equality are the native `String`.)
use Prim.Native.Char.{code as char_code}
use mathlib.Core.List.{cons≢nil, head-eq_of_cons-eq, tail-eq_of_cons-eq}
use block_docs.Base.{
  sym, ℕ_discrete, String, ℕ, ◌<◌, ◌≡◌, refl, ◌⊎◌, inr, Bool, true, false, List, [], ◌∷◌, ◌++◌,
  arith, ltb, if◌then◌else◌,
}

abbrev pub Text : Type 0
Text = List ℕ

-- `s < t`: at the first difference, or `s` is a proper prefix.
abbrev pub Before : Text → Text → Type 0
Before s [] = ⊥
Before [] (d ∷ t) = Unit
Before (c ∷ s) (d ∷ t) = (c < d) ⊎ ((c ≡ d) × Before s t)

unfoldable pub str_lt : Text → Text → Bool
str_lt s [] = false
str_lt [] (d ∷ t) = true
str_lt (c ∷ s) (d ∷ t) = if ltb c d then true else if ltb d c then false else str_lt s t

pub str_lt→Before : (s t : Text) → str_lt s t ≡ true → Before s t
unfolding str_lt
str_lt→Before s [] h = cc
str_lt→Before [] (d ∷ t) h = tt
str_lt→Before (c ∷ s) (d ∷ t) h = ground (arith, str_lt→Before s t)

pub Before→str_lt : (s t : Text) → Before s t → str_lt s t ≡ true
unfolding str_lt
Before→str_lt s [] h = absurd h
Before→str_lt [] (d ∷ t) h = refl
Before→str_lt (c ∷ s) (d ∷ t) h = ground (arith, Before→str_lt s t)

pub Before-irrefl : (s : Text) → ¬ Before s s
Before-irrefl [] h = h
Before-irrefl (c ∷ s) h = ground (arith, Before-irrefl s)

pub Before-trans : (r s t : Text) → Before r s → Before s t → Before r t
Before-trans r s [] p q = q
Before-trans r [] (d ∷ t) p q = absurd p
Before-trans [] (c ∷ s) (d ∷ t) p q = tt
Before-trans (b ∷ r) (c ∷ s) (d ∷ t) p q = ground (arith, Before-trans r s t)

-- Two texts of which neither is before the other are equal.
pub Before-total : (s t : Text) → ¬ Before s t → ¬ Before t s → s ≡ t
Before-total [] [] p q = refl
Before-total [] (d ∷ t) p q = absurd (p tt)
Before-total (c ∷ s) [] p q = absurd (q tt)
Before-total (c ∷ s) (d ∷ t) p q = ground (arith, Before-total s t)

pub Before-append : (p s t : Text) → Before s t → Before (p ++ s) (p ++ t)
Before-append [] s t h = h
Before-append (c ∷ p) s t h = inr (refl, Before-append p s t h)

same : {c d : ℕ} {s t : Text} → Dec (c ≡ d) → Dec (s ≡ t) → Dec (c ∷ s ≡ d ∷ t)
same (yes p) (yes q) = yes (λ i. p i ∷ q i)
same (yes p) (no n) = no (λ e. n (tail-eq_of_cons-eq e))
same (no n) q = no (λ e. n (head-eq_of_cons-eq e))

-- `s === t`
unfoldable pub text_discrete : Discrete Text
unfolding same
text_discrete [] [] = yes refl
text_discrete [] (d ∷ t) = no (λ e. cons≢nil (sym e))
text_discrete (c ∷ s) [] = no (λ e. cons≢nil e)
text_discrete (c ∷ s) (d ∷ t) = same (ℕ_discrete c d) (text_discrete s t)

-- The text of a native string.
abbrev pub codes : String → Text
codes String.[] = []
codes (String.◌∷◌ c s) = char_code c ∷ codes s
