-- ===== src/Store/Flatten/Height.antt =====
-- How far a block is from the root, going up by `parentId` in apps/web/src/store/block-store.ts.
use block_docs.Base.{
  ℕ, zero, suc, ◌<◌, ◌≡◌, ◌≢◌, refl, sym, ap, subst, none≢some, ◌∙◌, String, Option, none, some, [],
  ◌∷◌, length, if_neg, arith, string_discrete, string_key,
}
use mathlib.Core.Option.{some-injective}
use block_docs.JsMap
use block_docs.JsMap.{IsDistinct}
use block_docs.JsMap.Laws.{get-delete, delete-IsDistinct}
use block_docs.Types.{Block}
use block_docs.Store.Index.{Blocks}

-- `n` steps up from the block lies a block at the root.
abbrev pub IsAt : Blocks → ℕ → String → Type 0
IsAt m zero id = (b : Block) × (JsMap.get id m ≡ some b) × (b.parent_id ≡ none)
IsAt m (suc n) id =
    (b : Block) × (p : String) × (JsMap.get id m ≡ some b) × (b.parent_id ≡ some p) × IsAt m n p

length-delete :
    (id : String) (b : Block) (m : Blocks)
    → JsMap.get id m ≡ some b
    → length m ≡ suc (length (JsMap.delete id m))
unfolding JsMap.get JsMap.delete
length-delete id b [] h = cc
length-delete id b ((k, v) ∷ m) h = ground (arith, length-delete id b m)

same_parent :
    (m : Blocks) (id : String) (b c : Block) {o : Option Block}
    → o ≡ some b
    → o ≡ some c
    → b.parent_id ≡ c.parent_id
same_parent m id b c h g = ap (λ (x : Block). x.parent_id) (some-injective b c (sym h ∙ g))

height_unique : (m : Blocks) (n k : ℕ) (id : String) → IsAt m n id → IsAt m k id → n ≡ k
height_unique m zero zero id h g = refl
height_unique m zero (suc k) id h g =
    absurd (none≢some g.1 (sym h.2 ∙ same_parent m id h.0 g.0 h.1 g.2 ∙ g.3))
height_unique m (suc n) zero id h g =
    absurd (none≢some h.1 (sym g.2 ∙ same_parent m id g.0 h.0 g.1 h.2 ∙ h.3))
height_unique m (suc n) (suc k) id h g =
    let e : h.1 ≡ g.1 = some-injective h.1 g.1 (sym h.3 ∙ same_parent m id h.0 g.0 h.2 g.2 ∙ g.3) in
    ap suc (height_unique m n k g.1 (subst (IsAt m n) e h.4) g.4)

-- Without a block, the lower ones are where they were.
get-without :
    (m : Blocks) (q id : String) (b : Block)
    → IsDistinct m
    → id ≢ q
    → JsMap.get q m ≡ some b
    → JsMap.get q (JsMap.delete id m) ≡ some b
get-without m q id b d n e = get-delete q id m d ∙ if_neg (string_discrete id q) n _ _ ∙ e

lower-differs : (m : Blocks) (j n : ℕ) (q id : String) → j < n → IsAt m j q → IsAt m n id → id ≢ q
lower-differs m j n q id lt h g e = omega (arith, height_unique m j n q h (subst (IsAt m n) (e) g))

IsAt-delete :
    (m : Blocks) (j n : ℕ) (q id : String)
    → IsDistinct m
    → j < n
    → IsAt m j q
    → IsAt m n id
    → IsAt (JsMap.delete id m) j q
IsAt-delete m zero n q id d lt h g =
    (h.0, get-without m q id h.0 d (lower-differs m zero n q id lt h g) h.1, h.2)
IsAt-delete m (suc j) n q id d lt h g = (
  h.0,
  h.1,
  get-without m q id h.0 d (lower-differs m (suc j) n q id lt h g) h.2,
  h.3,
  IsAt-delete m j n h.1 id d (omega arith) h.4 g,
)

-- A block at height `n` has `n` others above it.
pub height-lt-length :
    (m : Blocks) (n : ℕ) (id : String) → IsDistinct m → IsAt m n id → n < length m
height-lt-length m zero id d h = omega (arith, length-delete id h.0 m h.1)
height-lt-length m (suc n) id d h = omega (
  arith,
  length-delete id h.0 m h.2,
  height-lt-length (JsMap.delete id m) n h.1 (delete-IsDistinct id m d)
      (IsAt-delete m n (suc n) h.1 id d (omega arith) h.4 h),
)
