-- ===== src/Store/Flatten/Complete.antt =====
-- That `flattenBlocks` of apps/web/src/store/block-store.ts leaves nothing out.
use block_docs.Base.{
  ℕ, zero, suc, ◌+◌, ◌≤◌, ◌≡◌, refl, sym, ap, subst, ◌∙◌, ◌⊎◌, inl, inr, String, Option, none, some,
  List, [], ◌∷◌, ◌++◌, length, if_pos, if_neg, Bool-cases, arith, All, string_discrete, string_key,
  none≢some,
}
use mathlib.Core.Option.{some-injective}
use block_docs.JsMap
use block_docs.JsMap.{JsMap, IsDistinct}
use block_docs.Text.{Text, str_lt}
use block_docs.Sort.{sort, insert}
use block_docs.Types.{Block}
use block_docs.Store.Index.{Blocks, position_in, rebuild_index, parent_discrete}
use block_docs.Store.Index.Laws.{order_under, under, rebuild_index_lem}
use block_docs.Store.Flatten.{concat_all, visit, walk, flatten_blocks?}
use block_docs.Store.Flatten.Height.{IsAt, height-lt-length}
use block_docs.Store.Flatten.Ends.{
  IsKeyed, Ended, concat_all-Ended, block_at, walk-Ended, All-Ended, order-IsUnder, children-IsAt,
}

-- Membership by recursion.
abbrev pub In : {A : Type 0} → A → List A → Type 0
In x [] = ⊥
In x (y ∷ ys) = (x ≡ y) ⊎ In x ys

In-left : {A : Type 0} (x : A) (xs ys : List A) → In x xs → In x (xs ++ ys)
In-left x [] ys h = absurd h
In-left x (y ∷ xs) ys (inl e) = inl e
In-left x (y ∷ xs) ys (inr h) = inr (In-left x xs ys h)

In-right : {A : Type 0} (x : A) (xs ys : List A) → In x ys → In x (xs ++ ys)
In-right x [] ys h = h
In-right x (y ∷ xs) ys h = inr (In-right x xs ys h)

-- What is inserted passes a member.
In-passed :
    (x a y : String) (ys zs : List String)
    → (In x (a ∷ ys) → In x zs)
    → In x (a ∷ y ∷ ys)
    → In x (y ∷ zs)
In-passed x a y ys zs f (inl p) = inr (f (inl p))
In-passed x a y ys zs f (inr (inl p)) = inl p
In-passed x a y ys zs f (inr (inr p)) = inr (f (inr p))

module _ (key : String → Text) where
  In-insert : (x a : String) (xs : List String) → In x (a ∷ xs) → In x (insert key a xs)
  unfolding insert
  In-insert x a [] h = h
  In-insert x a (y ∷ ys) h = elim (Bool-cases (str_lt (key y) (key a))) [
    | inl e ↦ rw e (In-passed x a y ys (insert key a ys) (In-insert x a ys) h)
    | inr e ↦ rw e h
  ]

  In-sort : (x : String) (xs : List String) → In x xs → In x (sort key xs)
  unfolding sort
  In-sort x [] h = h
  In-sort x (y ∷ ys) (inl e) = In-insert x y (sort key ys) (inl e)
  In-sort x (y ∷ ys) (inr h) = In-insert x y (sort key ys) (inr (In-sort x ys h))

In-under :
    (parent : Option String) (id : String) (b : Block) (m : Blocks)
    → IsKeyed m
    → JsMap.get id m ≡ some b
    → b.parent_id ≡ parent
    → In id (under parent (JsMap.values m))
unfolding under JsMap.get
In-under parent id b [] keyed e p = absurd (none≢some b e)
In-under parent id b ((k, v) ∷ m) keyed e p = elim (string_discrete k id) [
  | yes q ↦
      let same : v ≡ b = some-injective v b (sym (if_pos (string_discrete k id) q _ _) ∙ e) in
      rw (if_pos (parent_discrete v.parent_id parent) (ap (λ (c : Block). c.parent_id) same ∙ p))
        (inl (sym q ∙ sym keyed.0))
  | no n ↦
      let h = In-under parent id b m keyed.1 (sym (if_neg (string_discrete k id) n _ _) ∙ e) p in
      elim (parent_discrete v.parent_id parent) [
        | yes q ↦ rw (if_pos (parent_discrete v.parent_id parent) q) (inr h)
        | no q ↦ rw (if_neg (parent_discrete v.parent_id parent) q) h
      ]
]

module _ (m : Blocks) (keyed : IsKeyed m) (d : IsDistinct m) where
  In-order :
      (parent : Option String) (id : String) (b : Block)
      → JsMap.get id m ≡ some b
      → b.parent_id ≡ parent
      → In id (order_under parent (rebuild_index m))
  In-order parent id b e p = subst (In id) (sym (rebuild_index_lem m parent)) (
      In-sort (position_in m) id (under parent (JsMap.values m)) (In-under parent id b m keyed e p))

  -- A way down through the listings of children.
  abbrev Below : ℕ → String → String → Type 0
  Below zero a id = a ≡ id
  Below (suc k) a id = (c : String) × In c (order_under (some a) (rebuild_index m)) × Below k c id

  from_root :
      (n k : ℕ) (a id : String)
      → IsAt m n a
      → Below k a id
      → (r : String) × (j : ℕ) × In r (rebuild_index m).root_order × Below j r id
  from_root zero k a id h w = (a, k, In-order none a h.0 h.1 h.2, w)
  from_root (suc n) k a id h w =
      from_root n (suc k) h.1 id h.4 (a, In-order (some h.1) a h.0 h.2 h.3, w)

  abbrev Lists : Option (List Block) → Block → Type 0
  Lists o b = (out : List Block) × (o ≡ some out) × In b out

  concat_all-Lists :
      (f : String → Option (List Block)) (ks : List String) (c : String) (b : Block)
      → All (λ k. Ended m keyed d (f k)) ks
      → In c ks
      → Lists (f c) b
      → Lists (concat_all f ks) b
  unfolding concat_all
  concat_all-Lists f [] c b ended h l = absurd h
  concat_all-Lists f (k ∷ ks) c b ended (inl e) l =
      let l' = subst (λ x. Lists (f x) b) e l in
      let rest = concat_all-Ended m keyed d f ks ended.1 in
      (l'.0 ++ rest.0, rw (l'.1, rest.1), In-left b l'.0 rest.0 l'.2)
  concat_all-Lists f (k ∷ ks) c b ended (inr h) l =
      let rest = concat_all-Lists f ks c b ended.1 h l in
      (ended.0.0 ++ rest.0, rw (ended.0.1, rest.1), In-right b ended.0.0 rest.0 rest.2)

  children-Ended :
      (fuel j : ℕ) (a : String)
      → IsAt m j a
      → length m ≤ suc fuel + j
      → All
          (λ k. Ended m keyed d (walk fuel m (rebuild_index m).children_map k))
          (order_under (some a) (rebuild_index m))
  children-Ended fuel j a at le =
      All-Ended m keyed d (walk fuel m (rebuild_index m).children_map) (suc j)
        (order_under (some a) (rebuild_index m))
        (λ k h. walk-Ended m keyed d fuel (suc j) k h (omega (arith, le)))
        (children-IsAt m keyed d j a (order_under (some a) (rebuild_index m)) at
          (order-IsUnder m keyed d (some a)))

  visit-found :
      (id : String) (a : Block) (o : Option (List Block)) (out : List Block)
      → JsMap.get id m ≡ some a
      → o ≡ some out
      → visit (JsMap.get id m) o ≡ some (a ∷ out)
  unfolding visit
  visit-found id a o out e f = rw (e, f) refl

  All-In : (P : String → Type 0) (c : String) (ks : List String) → All P ks → In c ks → P c
  All-In P c [] a h = absurd h
  All-In P c (k ∷ ks) a (inl e) = subst P (sym e) a.0
  All-In P c (k ∷ ks) a (inr h) = All-In P c ks a.1 h

  walk-Lists :
      (fuel j k : ℕ) (a id : String) (b : Block)
      → IsAt m j a
      → length m ≤ fuel + j
      → Below k a id
      → JsMap.get id m ≡ some b
      → Lists (walk fuel m (rebuild_index m).children_map a) b
  unfolding walk
  walk-Lists zero j k a id b at le w e = absurd (omega (arith, height-lt-length m j a d at, le))
  walk-Lists (suc fuel) j zero a id b at le w e =
      let rest =
        concat_all-Ended m keyed d (walk fuel m (rebuild_index m).children_map)
          (order_under (some a) (rebuild_index m)) (children-Ended fuel j a at le) in
      (b ∷ rest.0, visit-found a b _ rest.0 (ap (λ x. JsMap.get x m) w ∙ e) rest.1, inl refl)
  walk-Lists (suc fuel) j (suc k) a id b at le w e =
      let here = block_at m keyed d j a at in
      let kids = order_under (some a) (rebuild_index m) in
      let below =
        All-In (IsAt m (suc j)) w.0 kids
          (children-IsAt m keyed d j a kids at (order-IsUnder m keyed d (some a))) w.1 in
      let rest =
        concat_all-Lists (walk fuel m (rebuild_index m).children_map) kids w.0 b
          (children-Ended fuel j a at le) w.1
          (walk-Lists fuel (suc j) k w.0 id b below (omega (arith, le)) w.2 e) in
      (here.0 ∷ rest.0, visit-found a here.0 _ rest.0 here.1 rest.1, inr rest.2)

  -- On every map of blocks, each under its own identifier: the listing of the tree has every block
  -- from which some number of steps up leads to a block at the root.
  pub flatten_blocks_complete :
      (n : ℕ) (id : String) (b : Block)
      → IsAt m n id
      → JsMap.get id m ≡ some b
      → (out : List Block) × (flatten_blocks?
            (rebuild_index m).root_order
            (rebuild_index m).children_map
            m
          ≡ some out)
        × In b out
  unfolding flatten_blocks?
  flatten_blocks_complete n id b h e =
      let f = walk (suc (length m)) m (rebuild_index m).children_map in
      let roots = (rebuild_index m).root_order in
      let top = order-IsUnder m keyed d none in
      let way = from_root n 0 id id h refl in
      concat_all-Lists f roots way.0 b
        (All-Ended m keyed d f 0 roots
          (λ k at. walk-Ended m keyed d (suc (length m)) 0 k at (omega arith)) top)
        way.2
        (walk-Lists (suc (length m)) 0 way.1 way.0 id b (All-In (IsAt m 0) way.0 roots top way.2)
          (omega arith) way.3 e)
