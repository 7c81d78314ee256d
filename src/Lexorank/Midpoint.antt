-- ===== src/Lexorank/Midpoint.antt =====
-- The outer loop of apps/web/src/lib/lexorank.ts, against the order of ranks.
use block_docs.Base.{
  ℕ, zero, suc, ◌+◌, ◌-◌, ◌/◌, ◌≤◌, ◌<◌, ◌≡◌, refl, inl, inr, Option, none, some, [], ◌∷◌, ◌++◌,
  append_assoc, arith, ltb, ◌==◌, if◌then◌else◌, Bool-cases, length, All,
}
use block_docs.Text.{Text, Before}
use block_docs.Lexorank.{
  min_char, max_char, widen, widen_fuel, scan, scan_fuel, midpoint, midpoint?, or_empty,
}
use block_docs.Lexorank.Rank.{
  IsLetter, IsRank, Gap, IsRankOrEmpty, IsRank-cons, IsRank-low, IsRank-All,
}
use block_docs.Lexorank.Tail.{Widens, widen-Widens}

-- The loop returns `r` with a rank between `a` and `b` behind it.
abbrev Fits : Text → Text → Text → Option Text → Type 0
Fits a b r out = (t : Text) × (out ≡ some (r ++ t)) × Before a t × Gap t b × IsRank t

-- One round: `ac` and `bc` are the characters read, `a'` and `b'` what is left of `a` and `b`.
record Round (a b a' b' : Text) (ac bc : ℕ) : Type 0 where
  letter : IsLetter ac
  bound : bc ≤ 123
  order : ac ≤ bc
  after_cons : (t : Text) → IsRank t → Before a' t → Before a (ac ∷ t)
  after_mid : (m : ℕ) → ac < m → Before a (m ∷ [])
  before_cons : (t : Text) → ac ≡ bc → Gap t b' → Gap (ac ∷ t) b
  before_lt : (m : ℕ) (t : Text) → m < bc → Gap (m ∷ t) b

Round-Fits :
    (a b a' b' : Text) (ac bc : ℕ) (r : Text) (same wide : Option Text)
    → Round a b a' b' ac bc
    → (ac ≡ bc → Fits a' b' (r ++ ac ∷ []) same)
    → Widens a' (r ++ ac ∷ []) wide
    → Fits a b r (
        if ac == bc
        then same
        else if ltb (ac + 1) bc
        then some (r ++ ((ac + bc) / 2) ∷ [])
        else wide)
Round-Fits a b a' b' ac bc r same wide h eq w = elim (Bool-cases (ac == bc)) [
  | inl p ↦
      let e : ac ≡ bc = ground arith in
      let (t, q, after, before, k) = eq e in
      rw p (
        ac ∷ t,
        rw append_assoc at q,
        h.after_cons t k after,
        h.before_cons t e before,
        IsRank-cons ac t h.letter k,
      )
  | inr p ↦
      let lt : ac < bc = ground (arith, h.order) in
      elim (Bool-cases (ltb (ac + 1) bc)) [
        | inl wider ↦
            let m = (ac + bc) / 2 in
            rw (p, wider)
              (
                m ∷ [],
                refl,
                h.after_mid m (ground arith),
                h.before_lt m [] (ground arith),
                ground (arith, h.letter, h.bound),
              )
        | inr close ↦
            let (t, q, after, k) = w in
            rw (p, close)
              (
                ac ∷ t,
                rw append_assoc at q,
                h.after_cons t k after,
                h.before_lt ac t lt,
                IsRank-cons ac t h.letter k,
              )
      ]
]

Before-nil : (t : Text) → IsRank t → Before [] t
Before-nil [] k = k
Before-nil (c ∷ t) k = tt

Before-rest : (ys : Text) → IsRank ys → IsRankOrEmpty ys × Gap [] ys
Before-rest [] k = absurd k
Before-rest (y ∷ ys) k = (k, inr tt)

IsRank-rest : (y : ℕ) (ys : Text) → IsRank (y ∷ ys) → IsRankOrEmpty ys
IsRank-rest y [] k = tt
IsRank-rest y (z ∷ ys) k = k.1

IsRank-head : (y : ℕ) (ys : Text) → IsRank (y ∷ ys) → IsLetter y
IsRank-head y [] k = k.0
IsRank-head y (z ∷ ys) k = k.0

-- The four rounds, by which of the two texts has a character left.
Round-both :
    (x y : ℕ) (xs ys : Text)
    → IsLetter x
    → IsLetter y
    → Before (x ∷ xs) (y ∷ ys)
    → Round (x ∷ xs) (y ∷ ys) xs ys x y
Round-both x y xs ys l k g = record {
  letter = l;
  bound = ground arith;
  order = ground arith;
  after_cons = λ t _ b. inr (refl, b);
  after_mid = λ m h. inl h;
  before_cons = λ t e p. ground arith;
  before_lt = λ m t h. inr (inl h);
}

Round-left : (x : ℕ) (xs : Text) → IsLetter x → Round (x ∷ xs) [] xs [] x (max_char + 1)
Round-left x xs l = record {
  letter = l;
  bound = omega arith;
  order = omega arith;
  after_cons = λ t _ b. inr (refl, b);
  after_mid = λ m h. inl h;
  before_cons = λ t e p. inl refl;
  before_lt = λ m t h. inl refl;
}

Round-right :
    (y : ℕ) (ys : Text) → IsRank (y ∷ ys) → IsLetter y → Round [] (y ∷ ys) [] ys min_char y
Round-right y ys k l = record {
  letter = omega arith;
  bound = omega arith;
  order = omega arith;
  after_cons = λ t _ _. tt;
  after_mid = λ m h. tt;
  before_cons = λ t e p. inr (inr (e, Gap-rest t ys (IsRank-low y ys e k) p));
  before_lt = λ m t h. inr (inl h);
}
  where
    Gap-rest : (t zs : Text) → IsRank zs → Gap t zs → Before t zs
    Gap-rest t [] j p = absurd j
    Gap-rest t (z ∷ zs) j p = ground arith

Round-none : Round [] [] [] [] min_char (max_char + 1)
Round-none = record {
  letter = omega arith;
  bound = omega arith;
  order = omega arith;
  after_cons = λ t _ _. tt;
  after_mid = λ m h. tt;
  before_cons = λ t e p. inl refl;
  before_lt = λ m t h. inl refl;
}

-- What the loop needs of the unread rests `a` and `b`, after `i` characters.
record Ready (a b : Text) (i : ℕ) : Type 0 where
  short : length a ≤ 41 - i
  lower : All IsLetter a
  upper : IsRankOrEmpty b
  gap : Gap a b

wide :
    (a : Text) (i : ℕ) (r : Text)
    → length a ≤ 41 - (i + 1)
    → All IsLetter a
    → Widens a r (widen widen_fuel a (i + 1) r)
wide a i r s l = widen-Widens widen_fuel a (i + 1) r (omega arith) (omega arith) s l

scan-Fits :
    (fuel : ℕ) (a b : Text) (i : ℕ) (r : Text)
    → length a + length b < fuel
    → Ready a b i
    → Fits a b r (scan fuel a b i r)
unfolding scan
scan-Fits zero a b i r h s = absurd (omega arith)
scan-Fits (suc f) [] [] i r h s =
    Round-Fits [] [] [] [] min_char (max_char + 1) r none _ Round-none (λ e. absurd (omega arith))
      (wide [] i (r ++ min_char ∷ []) (omega arith) tt)
scan-Fits (suc f) (x ∷ xs) [] i r h s =
    Round-Fits (x ∷ xs) [] xs [] x (max_char + 1) r _ _ (Round-left x xs s.lower.0)
      (λ e. absurd (omega (arith, s.lower)))
      (wide xs i (r ++ x ∷ []) (omega (arith, s.short)) s.lower.1)
scan-Fits (suc f) [] (y ∷ ys) i r h s =
    Round-Fits [] (y ∷ ys) [] ys min_char y r _ _
      (Round-right y ys s.upper (IsRank-head y ys s.upper))
      (λ e.
        let k : IsRank ys = IsRank-low y ys e s.upper in
        scan-Fits f [] ys (i + 1) (r ++ min_char ∷ []) (omega arith) (record {
          short = omega arith;
          lower = tt;
          upper = (Before-rest ys k).0;
          gap = (Before-rest ys k).1;
        }))
      (wide [] i (r ++ min_char ∷ []) (omega arith) tt)
scan-Fits (suc f) (x ∷ xs) (y ∷ ys) i r h s =
    let g : Before (x ∷ xs) (y ∷ ys) = ground (arith, s.gap) in
    Round-Fits (x ∷ xs) (y ∷ ys) xs ys x y r _ _
      (Round-both x y xs ys s.lower.0 (IsRank-head y ys s.upper) g)
      (λ e. scan-Fits f xs ys (i + 1) (r ++ x ∷ []) (omega arith) (record {
        short = omega (arith, s.short);
        lower = s.lower.1;
        upper = IsRank-rest y ys s.upper;
        gap = inr (ground arith);
      }))
      (wide xs i (r ++ x ∷ []) (omega (arith, s.short)) s.lower.1)

-- A position is none, or a rank.
abbrev pub IsPosition : Option Text → Type 0
IsPosition none = Unit
IsPosition (some s) = IsRank s

-- `m` is strictly between: after `prev`, if there is one, and before `next`, if there is one.
abbrev pub Between : Option Text → Text → Option Text → Type 0
Between none m none = Unit
Between none m (some b) = Before m b
Between (some a) m none = Before a m
Between (some a) m (some b) = Before a m × Before m b

abbrev pub InOrder : Option Text → Option Text → Type 0
InOrder (some a) (some b) = Before a b
InOrder _ _ = Unit

Fits-result :
    (prev next : Option Text)
    → Fits (or_empty prev) (or_empty next) [] (midpoint? prev next)
    → IsPosition next
    → Between prev (midpoint prev next) next × IsRank (midpoint prev next)
unfolding midpoint
Fits-result none none (t, e, after, before, k) h = rw e (tt, k)
Fits-result none (some (c ∷ b)) (t, e, after, before, k) h = rw e (ground arith, k)
Fits-result none (some []) f h = absurd h
Fits-result (some a) none (t, e, after, before, k) h = rw e (after, k)
Fits-result (some a) (some (c ∷ b)) (t, e, after, before, k) h = rw e (ground arith, k)
Fits-result (some a) (some []) f h = absurd h

Ready-start :
    (prev next : Option Text)
    → IsPosition prev
    → IsPosition next
    → InOrder prev next
    → length (or_empty prev) ≤ 41
    → Ready (or_empty prev) (or_empty next) 0
Ready-start none none p q o s = record { short = s; lower = tt; upper = tt; gap = inl refl }
Ready-start none (some b) p q o s = record {
  short = s;
  lower = tt;
  upper = (Before-rest b q).0;
  gap = (Before-rest b q).1;
}
Ready-start (some a) none p q o s = record {
  short = s;
  lower = IsRank-All a p;
  upper = tt;
  gap = inl refl;
}
Ready-start (some a) (some b) p q o s = record {
  short = s;
  lower = IsRank-All a p;
  upper = (Before-rest b q).0;
  gap = inr o;
}

-- For ranks, or none, in order, the first of at most 41 characters: `midpoint` is a rank strictly
-- between them.
pub midpoint-Between :
    (prev next : Option Text)
    → IsPosition prev
    → IsPosition next
    → InOrder prev next
    → length (or_empty prev) ≤ 41
    → Between prev (midpoint prev next) next × IsRank (midpoint prev next)
midpoint-Between prev next p q o s =
    Fits-result prev next
      (scan-Fits (scan_fuel (or_empty prev) (or_empty next)) (or_empty prev) (or_empty next) 0 []
        (omega arith) (Ready-start prev next p q o s))
      q
