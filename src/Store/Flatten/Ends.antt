-- ===== src/Store/Flatten/Ends.antt =====
-- The end of `flattenBlocks` of apps/web/src/store/block-store.ts, and what it lists.
use block_docs.Base.{
  ℕ, zero, suc, ◌+◌, ◌≤◌, ◌≡◌, refl, sym, ap, subst, ◌∙◌, String, Option, none, some, List, [], ◌∷◌,
  ◌++◌, length, if_pos, if_neg, arith, All, All-append, string_discrete, string_key, none≢some,
}
use block_docs.JsMap
use block_docs.JsMap.{JsMap, IsDistinct}
use block_docs.Sort.Laws.{sort-All}
use block_docs.Types.{Block}
use block_docs.Store.Index.{Blocks, position_in, or_nil, rebuild_index, parent_discrete}
use block_docs.Store.Index.Laws.{order_under, under, rebuild_index_lem}
use block_docs.Store.Flatten.{concat_all, visit, walk, flatten_blocks?}
use block_docs.Store.Flatten.Height.{IsAt, height-lt-length}

-- Every block stands under its own identifier.
abbrev pub IsKeyed : Blocks → Type 0
IsKeyed m = All (λ e. e.1.block_id ≡ e.0) m

keyed-get :
    (m : Blocks) (id : String) (b : Block) → IsKeyed m → JsMap.get id m ≡ some b → b.block_id ≡ id
unfolding JsMap.get
keyed-get [] id b keyed h = cc
keyed-get ((k, v) ∷ m) id b keyed h = ground (arith, keyed-get m id b keyed.1)

-- The entries of a map are what `get` finds.
All-mono :
    (m : Blocks) (k : String) (v : Block) (es : Blocks)
    → JsMap.get k m ≡ none
    → All (λ e. JsMap.get e.0 m ≡ some e.1) es
    → All (λ e. JsMap.get e.0 ((k, v) ∷ m) ≡ some e.1) es
unfolding JsMap.get
All-mono m k v [] h a = tt
All-mono m k v (e ∷ es) h a = (
  if_neg (string_discrete k e.0) (λ q. none≢some e.1 (sym h ∙ ap (λ x. JsMap.get x m) q ∙ a.0)) _ _
      ∙ a.0,
  All-mono m k v es h a.1,
)

entries-get : (m : Blocks) → IsDistinct m → All (λ e. JsMap.get e.0 m ≡ some e.1) m
unfolding JsMap.get
entries-get [] d = tt
entries-get ((k, v) ∷ m) d =
    (if_pos (string_discrete k k) refl _ _, All-mono m k v m d.0 (entries-get m d.1))

-- The identifier of a block with the given parent.
abbrev pub IsUnder : Blocks → Option String → String → Type 0
IsUnder m parent id = (b : Block) × (JsMap.get id m ≡ some b) × (b.parent_id ≡ parent)

All-under :
    (m : Blocks) (parent : Option String) (es : Blocks)
    → IsKeyed es
    → All (λ e. JsMap.get e.0 m ≡ some e.1) es
    → All (IsUnder m parent) (under parent (JsMap.values es))
unfolding under
All-under m parent [] keyed a = tt
All-under m parent ((k, v) ∷ es) keyed a = elim (parent_discrete v.parent_id parent) [
  | yes p ↦
      rw (if_pos (parent_discrete v.parent_id parent) p)
        ((v, ap (λ x. JsMap.get x m) keyed.0 ∙ a.0, p), All-under m parent es keyed.1 a.1)
  | no n ↦ rw (if_neg (parent_discrete v.parent_id parent) n) (All-under m parent es keyed.1 a.1)
]

module _ (m : Blocks) (keyed : IsKeyed m) (d : IsDistinct m) where
  pub order-IsUnder :
      (parent : Option String) → All (IsUnder m parent) (order_under parent (rebuild_index m))
  order-IsUnder parent = subst (All (IsUnder m parent)) (sym (rebuild_index_lem m parent)) (
      sort-All (position_in m) (IsUnder m parent) (under parent (JsMap.values m))
        (All-under m parent m keyed (entries-get m d)))

  -- A part of the walk that ends, having listed blocks of the store.
  abbrev pub Ended : Option (List Block) → Type 0
  Ended o = (out : List Block) × (o ≡ some out) × All (λ b. JsMap.get b.block_id m ≡ some b) out

  pub concat_all-Ended :
      (f : String → Option (List Block)) (ks : List String)
      → All (λ k. Ended (f k)) ks
      → Ended (concat_all f ks)
  unfolding concat_all
  concat_all-Ended f [] h = ([], refl, tt)
  concat_all-Ended f (k ∷ ks) h =
      let rest = concat_all-Ended f ks h.1 in
      (h.0.0 ++ rest.0, rw (h.0.1, rest.1), All-append _ h.0.0 rest.0 h.0.2 rest.2)

  visit-Ended :
      (id : String) (b : Block) (o : Option (List Block))
      → JsMap.get id m ≡ some b
      → Ended o
      → Ended (visit (JsMap.get id m) o)
  unfolding visit
  visit-Ended id b o e h =
      (b ∷ h.0, rw (e, h.1), (ap (λ x. JsMap.get x m) (keyed-get m id b keyed e) ∙ e, h.2))

  -- The children of a block are one step lower.
  pub children-IsAt :
      (n : ℕ) (id : String) (ks : List String)
      → IsAt m n id
      → All (IsUnder m (some id)) ks
      → All (IsAt m (suc n)) ks
  children-IsAt n id [] h a = tt
  children-IsAt n id (k ∷ ks) h a = ((a.0.0, id, a.0.1, a.0.2, h), children-IsAt n id ks h a.1)

  pub All-Ended :
      (f : String → Option (List Block)) (n : ℕ) (ks : List String)
      → ((k : String) → IsAt m n k → Ended (f k))
      → All (IsAt m n) ks
      → All (λ k. Ended (f k)) ks
  All-Ended f n [] h a = tt
  All-Ended f n (k ∷ ks) h a = (h k a.0, All-Ended f n ks h a.1)

  abbrev children : JsMap String (List String)
  children = (rebuild_index m).children_map

  pub block_at : (n : ℕ) (id : String) → IsAt m n id → (b : Block) × (JsMap.get id m ≡ some b)
  block_at zero id h = (h.0, h.1)
  block_at (suc n) id h = (h.0, h.2)

  pub walk-Ended :
      (fuel n : ℕ) (id : String)
      → IsAt m n id
      → length m ≤ fuel + n
      → Ended (walk fuel m children id)
  unfolding walk
  walk-Ended zero n id h le = absurd (omega (arith, height-lt-length m n id d h))
  walk-Ended (suc fuel) n id h le =
      let b = block_at n id h in
      visit-Ended id b.0 _ b.1 (
        concat_all-Ended (walk fuel m children) (or_nil (JsMap.get id children)) (
          All-Ended (walk fuel m children) (suc n) (or_nil (JsMap.get id children))
            (λ k at. walk-Ended fuel (suc n) k at (omega arith))
            (children-IsAt n id (or_nil (JsMap.get id children)) h (order-IsUnder (some id)))))

  -- The listing of the tree ends on every map of blocks, each under its own identifier, with the
  -- index that `rebuildIndex` gives it, also where blocks are their own ancestors: no cycle can be
  -- reached from the root. And all that it lists are blocks of the map.
  pub flatten_blocks-ends :
      (out : List Block) × (flatten_blocks? (rebuild_index m).root_order children m ≡ some out)
      × All (λ b. JsMap.get b.block_id m ≡ some b) out
  unfolding flatten_blocks?
  flatten_blocks-ends =
      concat_all-Ended (walk (suc (length m)) m children) (rebuild_index m).root_order (
        All-Ended (walk (suc (length m)) m children) 0 (rebuild_index m).root_order
          (λ k at. walk-Ended (suc (length m)) 0 k at (omega arith)) (order-IsUnder none))
