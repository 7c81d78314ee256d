-- ===== src/Store/Position/Between.antt =====
-- Where `computePosition` of apps/web/src/store/block-store.ts puts a block among its siblings.
use block_docs.Base.{
  ℕ, zero, suc, ◌-◌, ◌≤◌, ◌≡◌, refl, ap, sym, subst, String, Option, none, some, List, [], ◌∷◌,
  arith, ◌⊎◌, inl, inr, length, get_elem?, take, drop, get_elem?-last, All, All-get_elem?,
}
use block_docs.Text.{Text, Before, Before-trans}
use block_docs.Lexorank.{midpoint}
use block_docs.Lexorank.Rank.{IsRank}
use block_docs.Lexorank.Midpoint.{IsPosition, Between, InOrder, midpoint-Between}
use block_docs.Types.{Block}
use block_docs.Store.Index.{Blocks}
use block_docs.Store.Position.{
  siblings_in, find_index, position?, Gap, gap_at, gap_after, compute_position,
}

-- Siblings in strictly rising positions, each a rank of at most 41 characters.
abbrev pub IsRanked : List Block → Type 0
IsRanked [] = Unit
IsRanked (b ∷ bs) =
    IsRank b.position
    × (length b.position ≤ 41)
    × All (λ c. Before b.position c.position) bs
    × IsRanked bs

-- How many siblings stand before the new block: those up to `afterId`, or all if it is not there.
abbrev count_at : List Block → Option ℕ → ℕ
count_at siblings (some idx) = suc idx
count_at siblings none = length siblings

abbrev pub count_before : List Block → Option String → ℕ
count_before siblings none = 0
count_before siblings (some after_id) = count_at siblings (find_index after_id siblings)

-- `m` stands between the first `n` siblings and the others.
abbrev pub Splits : ℕ → List Block → Text → Type 0
Splits n siblings m =
    All (λ b. Before b.position m) (take n siblings)
    × All (λ b. Before m b.position) (drop n siblings)

IsRanked-get :
    (bs : List Block) (i : ℕ) (b : Block)
    → IsRanked bs
    → get_elem? bs i ≡ some b
    → IsRank b.position × (length b.position ≤ 41)
IsRanked-get [] i b r e = cc
IsRanked-get (c ∷ cs) zero b r e = ground arith
IsRanked-get (c ∷ cs) (suc i) b r e = IsRanked-get cs i b r.3 e

IsRanked-next :
    (bs : List Block) (i : ℕ) (b c : Block)
    → IsRanked bs
    → get_elem? bs i ≡ some b
    → get_elem? bs (suc i) ≡ some c
    → Before b.position c.position
IsRanked-next [] i b c r e f = cc
IsRanked-next (d ∷ ds) zero b c r e f =
    subst (λ (x : Block). Before x.position c.position) {x = d} {y = b} (ground arith)
      (All-get_elem? (λ x. Before d.position x.position) ds 0 c r.2 f)
IsRanked-next (d ∷ ds) (suc i) b c r e f = IsRanked-next ds i b c r.3 e f

All-after :
    (m : Text) (b : Block) (bs : List Block)
    → Before m b.position
    → All (λ c. Before b.position c.position) bs
    → All (λ c. Before m c.position) bs
All-after m b [] h a = tt
All-after m b (c ∷ cs) h a = (Before-trans m b.position c.position h a.0, All-after m b cs h a.1)

take-Before :
    (bs : List Block) (i : ℕ) (b : Block) (m : Text)
    → IsRanked bs
    → get_elem? bs i ≡ some b
    → Before b.position m
    → All (λ c. Before c.position m) (take (suc i) bs)
take-Before [] i b m r e h = cc
take-Before (c ∷ cs) zero b m r e h = (ground arith, tt)
take-Before (c ∷ cs) (suc i) b m r e h = (
  Before-trans c.position b.position m
      (All-get_elem? (λ x. Before c.position x.position) cs i b r.2 e) h,
  take-Before cs i b m r.3 e h,
)

drop-Before :
    (bs : List Block) (i : ℕ) (m : Text)
    → IsRanked bs
    → ((b : Block) → get_elem? bs i ≡ some b → Before m b.position)
    → All (λ c. Before m c.position) (drop i bs)
drop-Before [] zero m r h = tt
drop-Before [] (suc i) m r h = tt
drop-Before (c ∷ cs) zero m r h = (h c refl, All-after m c cs (h c refl) r.2)
drop-Before (c ∷ cs) (suc i) m r h = drop-Before cs i m r.3 h

find_index-get :
    (id : String) (bs : List Block) (i : ℕ)
    → find_index id bs ≡ some i
    → (b : Block) × (get_elem? bs i ≡ some b)
unfolding find_index
find_index-get id [] i e = cc
find_index-get id (b ∷ bs) zero e = (b, refl)
find_index-get id (b ∷ bs) (suc j) e = find_index-get id bs j (ground arith)

-- The gap `g` is that after the first `n` siblings.
record IsGap (bs : List Block) (n : ℕ) (g : Gap) : Type 0 where
  next_at : g.next ≡ position? (get_elem? bs n)
  prev_at :
      ((n ≡ 0) × (g.prev ≡ none))
      ⊎ ((i : ℕ) × (b : Block) × (n ≡ suc i)
          × (get_elem? bs i ≡ some b)
          × (g.prev ≡ some b.position))

get_elem?-length : (bs : List Block) → get_elem? bs (length bs) ≡ none
get_elem?-length [] = refl
get_elem?-length (b ∷ bs) = get_elem?-length bs

gap_at-IsGap :
    (bs : List Block) (o : Option ℕ)
    → ((i : ℕ) → o ≡ some i → (b : Block) × (get_elem? bs i ≡ some b))
    → IsGap bs (count_at bs o) (gap_at bs o)
unfolding gap_at
gap_at-IsGap bs (some i) found =
    let (b, e) = found i refl in
    record {
      next_at = ap (λ k. position? (get_elem? bs k)) (omega arith);
      prev_at = inr (i, b, refl, e, ap position? e);
    }
gap_at-IsGap [] none found = record { next_at = refl; prev_at = inl (refl, refl) }
gap_at-IsGap (b ∷ bs) none found =
    let (c, e) = get_elem?-last b bs in
    let last : length (b ∷ bs) - 1 ≡ length bs = omega arith in
    record {
      next_at = ap position? (sym (get_elem?-length bs));
      prev_at = inr (length bs, c, refl, e, rw last (ap position? e));
    }

gap_after-IsGap :
    (bs : List Block) (after_id : Option String)
    → IsGap bs (count_before bs after_id) (gap_after bs after_id)
unfolding gap_after
gap_after-IsGap bs none = record { next_at = refl; prev_at = inl (refl, refl) }
gap_after-IsGap bs (some id) = gap_at-IsGap bs (find_index id bs) (find_index-get id bs)

position?-IsPosition :
    (bs : List Block) (i : ℕ) → IsRanked bs → IsPosition (position? (get_elem? bs i))
position?-IsPosition [] i r = tt
position?-IsPosition (b ∷ bs) zero r = r.0
position?-IsPosition (b ∷ bs) (suc i) r = position?-IsPosition bs i r.3

Between-next :
    (prev : Option Text) (m : Text) (o : Option Block) (b : Block)
    → Between prev m (position? o)
    → o ≡ some b
    → Before m b.position
Between-next none m (some c) b h e = ground arith
Between-next (some p) m (some c) b h e = ground arith
Between-next prev m none b h e = cc

Between-prev : (p m : Text) (next : Option Text) → Between (some p) m next → Before p m
Between-prev p m none h = h
Between-prev p m (some q) h = h.0

InOrder-next :
    (b : Block) (bs : List Block) (i : ℕ)
    → IsRanked bs
    → get_elem? bs i ≡ some b
    → InOrder (some b.position) (position? (get_elem? bs (suc i)))
InOrder-next b bs i r e = go (get_elem? bs (suc i)) refl
  where
    go : (o : Option Block) → get_elem? bs (suc i) ≡ o → InOrder (some b.position) (position? o)
    go none f = tt
    go (some c) f = IsRanked-next bs i b c r e f

first-Splits :
    (bs : List Block) → IsRanked bs → Splits 0 bs (midpoint none (position? (get_elem? bs 0)))
first-Splits bs r =
    let (between, _) =
      midpoint-Between none (position? (get_elem? bs 0)) tt (position?-IsPosition bs 0 r) tt
        (omega arith) in
    (tt, drop-Before bs 0 _ r (λ b e. Between-next none _ (get_elem? bs 0) b between e))

later-Splits :
    (bs : List Block) (i : ℕ) (b : Block)
    → IsRanked bs
    → get_elem? bs i ≡ some b
    → Splits (suc i) bs (midpoint (some b.position) (position? (get_elem? bs (suc i))))
later-Splits bs i b r e =
    let next = position? (get_elem? bs (suc i)) in
    let (rank, short) = IsRanked-get bs i b r e in
    let (between, _) =
      midpoint-Between (some b.position) next rank (position?-IsPosition bs (suc i) r)
        (InOrder-next b bs i r e) short in
    (
      take-Before bs i b _ r e (Between-prev b.position _ next between),
      drop-Before bs (suc i) _ r
          (λ c f. Between-next (some b.position) _ (get_elem? bs (suc i)) c between f),
    )

IsGap-Splits :
    (bs : List Block) (n : ℕ) (g : Gap)
    → IsRanked bs
    → IsGap bs n g
    → Splits n bs (midpoint g.prev g.next)
IsGap-Splits bs n g r gap = elim gap.prev_at [
  | inl (zeroth, p) ↦ rw (gap.next_at, p, zeroth) (first-Splits bs r)
  | inr (i, b, at, e, p) ↦ rw (gap.next_at, p, at) (later-Splits bs i b r e)
]

-- Among siblings in strictly rising ranks of at most 41 characters, `computePosition` gives a
-- position after those up to `afterId` (none without one, all if it is not there) and before all
-- others.
pub compute_position-Splits :
    (blocks : Blocks) (order : List String) (parent_id after_id : Option String)
    → IsRanked (siblings_in blocks parent_id order)
    → let siblings = siblings_in blocks parent_id order in
      Splits
        (count_before siblings after_id)
        siblings
        (compute_position blocks order parent_id after_id)
unfolding compute_position
compute_position-Splits blocks order parent_id after_id r =
    let siblings = siblings_in blocks parent_id order in
    IsGap-Splits siblings (count_before siblings after_id) (gap_after siblings after_id) r
      (gap_after-IsGap siblings after_id)
