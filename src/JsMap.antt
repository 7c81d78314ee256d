-- ===== src/JsMap.antt =====
-- JavaScript's `Map`, as the program uses it: entries in the order in which their keys were first
-- set. `set` on a key that is there writes in place; iteration is over the list.
pub mod Laws
use block_docs.Base.{ℕ, ◌≡◌, Option, none, some, List, [], ◌∷◌, map, ite, Key}

abbrev pub JsMap {ℓ} : Type ℓ → Type ℓ → Type ℓ
JsMap K V = List (K × V)

module _ {ℓ} {K V : Type ℓ} where
  abbrev pub keys : JsMap K V → List K
  keys = map λ e. e.0

  abbrev pub values : JsMap K V → List V
  values = map λ e. e.1

  -- A write to each entry in turn, as in `for (const [k, v] of m) m.set(k, f(v))`.
  unfoldable pub map_values : {W : Type ℓ} → (V → W) → JsMap K V → JsMap K W
  map_values f [] = []
  map_values f ((k, v) ∷ m) = (k, f v) ∷ map_values f m

module _ {ℓ} {K V : Type ℓ} ⦃e : Key K⦄ where
  unfoldable pub get : K → JsMap K V → Option V
  get k [] = none
  get k ((j, v) ∷ m) = ite (e.eq? j k) (some v) (get k m)

  unfoldable pub set : K → V → JsMap K V → JsMap K V
  set k v [] = (k, v) ∷ []
  set k v ((j, w) ∷ m) = ite (e.eq? j k) ((j, v) ∷ m) ((j, w) ∷ set k v m)

  unfoldable pub delete : K → JsMap K V → JsMap K V
  delete k [] = []
  delete k ((j, w) ∷ m) = ite (e.eq? j k) m ((j, w) ∷ delete k m)

  -- The keys of a real map are distinct.
  abbrev pub IsAbsent : K → JsMap K V → Type ℓ
  IsAbsent k m = get k m ≡ none

  abbrev pub IsDistinct : JsMap K V → Type ℓ
  IsDistinct [] = Unit
  IsDistinct ((k, v) ∷ m) = IsAbsent k m × IsDistinct m
