-- ===== src/Sort.antt =====
-- `Array.prototype.sort` with a comparator that compares a key by `<`: it is stable, so a list has
-- one result, which an insertion sort computes.
pub mod Laws
use block_docs.Base.{Bool, true, false, List, [], ◌∷◌, if◌then◌else◌}
use block_docs.Text.{Text, str_lt}

module _ {ℓ} {A : Type ℓ} (key : A → Text) where
  unfoldable pub insert : A → List A → List A
  unfolding str_lt
  insert x [] = x ∷ []
  insert x (y ∷ ys) = if str_lt (key y) (key x) then y ∷ insert x ys else x ∷ y ∷ ys

  unfoldable pub sort : List A → List A
  unfolding insert
  sort [] = []
  sort (x ∷ xs) = insert x (sort xs)
