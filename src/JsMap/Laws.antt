-- ===== src/JsMap/Laws.antt =====
-- The laws of the map. Those about `delete` hold of distinct keys.
use block_docs.Base.{◌≡◌, refl, none, some, [], ◌∷◌, ite, arith, Key}
use block_docs.JsMap.{JsMap, map_values, get, set, delete, IsDistinct}
use mathlib.Core.Option

module _ {ℓ} {K V : Type ℓ} ⦃e : Key K⦄ where
  pub get-set :
      (j k : K) (v : V) (m : JsMap K V) → get j (set k v m) ≡ ite (e.eq? k j) (some v) (get j m)
  unfolding get set
  get-set j k v [] = refl
  get-set j k v ((i, w) ∷ m) = ground (arith, get-set j k v m)

  pub get-delete :
      (j k : K) (m : JsMap K V) → IsDistinct m → get j (delete k m) ≡ ite (e.eq? k j) none (get j m)
  unfolding get delete
  get-delete j k [] d = ground arith
  get-delete j k ((i, w) ∷ m) d = ground (arith, get-delete j k m)

  pub set-IsDistinct : (k : K) (v : V) (m : JsMap K V) → IsDistinct m → IsDistinct (set k v m)
  unfolding set get
  set-IsDistinct k v [] d = (refl, tt)
  set-IsDistinct k v ((i, w) ∷ m) d = ground (arith, set-IsDistinct k v m, get-set i k v m)

  pub delete-IsDistinct : (k : K) (m : JsMap K V) → IsDistinct m → IsDistinct (delete k m)
  unfolding delete get
  delete-IsDistinct k [] d = tt
  delete-IsDistinct k ((i, w) ∷ m) d = ground (arith, delete-IsDistinct k m, get-delete i k m)

  pub get-map_values :
      {W : Type ℓ} (f : V → W) (k : K) (m : JsMap K V)
      → get k (map_values f m) ≡ Option.map f (get k m)
  unfolding get map_values
  get-map_values f k [] = refl
  get-map_values f k ((i, w) ∷ m) = ground (arith, get-map_values f k m)

  pub map_values-IsDistinct :
      {W : Type ℓ} (f : V → W) (m : JsMap K V) → IsDistinct m → IsDistinct (map_values f m)
  unfolding map_values get
  map_values-IsDistinct f [] d = tt
  map_values-IsDistinct f ((i, w) ∷ m) d =
      ground (arith, map_values-IsDistinct f m, get-map_values f i m)
