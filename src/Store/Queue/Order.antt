-- ===== src/Store/Queue/Order.antt =====
-- The order of the sequence numbers in `pendingOps` of apps/web/src/store/block-store.ts.
use block_docs.Base.{
  ℕ, suc, ◌+◌, ◌≤◌, ◌≡◌, refl, Option, none, some, List, [], ◌∷◌, ◌++◌, ite, arith, ℕ_discrete,
}
use block_docs.Types.{BlockOperation}
use block_docs.Store.{Pending}
use block_docs.Store.Queue.{without}

-- From `lo`, rising, below `hi`.
abbrev pub Ascends : ℕ → List Pending → ℕ → Type 0
Ascends lo [] hi = lo ≤ hi
Ascends lo (p ∷ ps) hi = (lo ≤ p.client_seq) × Ascends (suc p.client_seq) ps hi

pub Ascends-weaken :
    {m n : ℕ} (ps : List Pending) (hi : ℕ) → m ≤ n → Ascends n ps hi → Ascends m ps hi
Ascends-weaken [] hi h a = omega arith
Ascends-weaken (p ∷ ps) hi h a = (omega arith, a.1)

pub Ascends-append :
    (lo hi : ℕ) (ps : List Pending) (p : Pending)
    → Ascends lo ps hi
    → p.client_seq ≡ hi
    → Ascends lo (ps ++ p ∷ []) (hi + 1)
Ascends-append lo hi [] p a e = omega arith
Ascends-append lo hi (q ∷ ps) p a e = (a.0, Ascends-append (suc q.client_seq) hi ps p a.1 e)

pub without-Ascends :
    (seq lo hi : ℕ) (ps : List Pending) → Ascends lo ps hi → Ascends lo (without seq ps) hi
unfolding without
without-Ascends seq lo hi [] a = a
without-Ascends seq lo hi (p ∷ ps) a =
    let rest = without-Ascends seq (suc p.client_seq) hi ps a.1 in
    ground (
      arith,
      rest,
      Ascends-weaken {m = lo} {n = suc p.client_seq} (without seq ps) hi (omega arith) rest,
    )

-- The operations that wait under a number.
unfoldable pub waiting : ℕ → List Pending → Option (List BlockOperation)
unfolding ℕ_discrete
waiting seq [] = none
waiting seq (p ∷ ps) = ite (ℕ_discrete p.client_seq seq) (some p.ops) (waiting seq ps)

pub waiting_above :
    (seq lo hi : ℕ) (ps : List Pending) → Ascends lo ps hi → hi ≤ seq → waiting seq ps ≡ none
unfolding waiting
waiting_above seq lo hi [] a h = refl
waiting_above seq lo hi (p ∷ ps) a h =
    ground
      (arith, waiting_above seq (suc p.client_seq) hi ps a.1, Ascends-le (suc p.client_seq) hi ps)
  where
    Ascends-le : (m n : ℕ) (qs : List Pending) → Ascends m qs n → m ≤ n
    Ascends-le m n [] b = b
    Ascends-le m n (q ∷ qs) b = omega (arith, Ascends-le (suc q.client_seq) n qs b.1)

pub waiting-without :
    (t seq : ℕ) (ps : List Pending)
    → waiting t (without seq ps) ≡ ite (ℕ_discrete seq t) none (waiting t ps)
unfolding waiting without
waiting-without t seq [] = ground arith
waiting-without t seq (p ∷ ps) = ground (arith, waiting-without t seq ps)

pub waiting-append :
    (t : ℕ) (ps : List Pending) (p : Pending)
    → waiting p.client_seq ps ≡ none
    → waiting t (ps ++ p ∷ []) ≡ ite (ℕ_discrete p.client_seq t) (some p.ops) (waiting t ps)
unfolding waiting
waiting-append t [] p h = refl
waiting-append t (q ∷ ps) p h = ground (arith, waiting-append t ps p)
