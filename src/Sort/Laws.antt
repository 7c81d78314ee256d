-- ===== src/Sort/Laws.antt =====
-- Lemmas on the stable sort: order, members, and dependence on the keys.
use mathlib.Core.List.Perm
use mathlib.Core.List.{Perm}
use block_docs.Base.{subst, inl, inr, Bool-cases, List, [], ◌∷◌, arith, All}
use block_docs.Text.{
  Text, Before, str_lt, str_lt→Before, Before→str_lt, Before-irrefl, Before-trans, Before-total,
}
use block_docs.Sort.{insert, sort}

-- No member is before an earlier one.
abbrev pub IsSorted {ℓ} : {A : Type ℓ} → (A → Text) → List A → Type 0
IsSorted key [] = Unit
IsSorted key (x ∷ xs) = All (λ y. ¬ Before (key y) (key x)) xs × IsSorted key xs

not-Before-trans : (r s t : Text) → ¬ Before s r → ¬ Before t s → ¬ Before t r
not-Before-trans r s t p q h = elim (Bool-cases (str_lt r s)) [
  | inl lt ↦ q (Before-trans t r s h (str_lt→Before r s lt))
  | inr ge ↦
      let e = Before-total r s (λ b. ground (arith, Before→str_lt r s b)) p in
      q (subst (λ u. Before t u) e h)
]

module _ {ℓ} {A : Type ℓ} (key : A → Text) where
  insert-All : (P : A → Type 0) (x : A) (xs : List A) → P x → All P xs → All P (insert key x xs)
  unfolding insert
  insert-All P x [] p h = (p, tt)
  insert-All P x (y ∷ ys) p h = ground (arith, insert-All P x ys p h.1)

  pub sort-All : (P : A → Type 0) (xs : List A) → All P xs → All P (sort key xs)
  unfolding sort
  sort-All P [] h = tt
  sort-All P (x ∷ xs) h = insert-All P x (sort key xs) h.0 (sort-All P xs h.1)

  All-after :
      (x y : A) (xs : List A)
      → ¬ Before (key y) (key x)
      → All (λ z. ¬ Before (key z) (key y)) xs
      → All (λ z. ¬ Before (key z) (key x)) xs
  All-after x y [] h a = tt
  All-after x y (z ∷ zs) h a =
      (not-Before-trans (key x) (key y) (key z) h a.0, All-after x y zs h a.1)

  insert-IsSorted : (x : A) (xs : List A) → IsSorted key xs → IsSorted key (insert key x xs)
  unfolding insert
  insert-IsSorted x [] s = (tt, tt)
  insert-IsSorted x (y ∷ ys) s = elim (Bool-cases (str_lt (key y) (key x))) [
    | inl lt ↦ rw lt (
      insert-All (λ z. ¬ Before (key z) (key y)) x ys
          (λ b.
            Before-irrefl (key y)
              (Before-trans (key y) (key x) (key y) (str_lt→Before (key y) (key x) lt) b))
          s.0,
      insert-IsSorted x ys s.1,
    )
    | inr ge ↦
        let h : ¬ Before (key y) (key x) = λ b. ground (arith, Before→str_lt (key y) (key x) b) in
        rw ge ((h, All-after x y ys h s.0), s)
  ]

  pub sort-IsSorted : (xs : List A) → IsSorted key (sort key xs)
  unfolding sort
  sort-IsSorted [] = tt
  sort-IsSorted (x ∷ xs) = insert-IsSorted x (sort key xs) (sort-IsSorted xs)

  insert-perm : (x : A) (xs : List A) → Perm (insert key x xs) (x ∷ xs)
  unfolding insert
  insert-perm x [] = Perm.refl _
  insert-perm x (y ∷ ys) = elim (Bool-cases (str_lt (key y) (key x))) [
    | inl lt ↦ rw lt (Perm.trans (Perm.cons y (insert-perm x ys)) (Perm.swap x y ys))
    | inr ge ↦ rw ge (Perm.refl _)
  ]

  pub sort-perm : (xs : List A) → Perm (sort key xs) xs
  unfolding sort
  sort-perm [] = Perm.refl _
  sort-perm (x ∷ xs) = Perm.trans (insert-perm x (sort key xs)) (Perm.cons x (sort-perm xs))
