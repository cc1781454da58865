-- ===== src/Prelude/Sums.antt =====
-- Sums of integers over lists, which sorting does not change.
use vyaparaflowai.Prelude.{◌≡◌, refl, Bool, List, [], ◌∷◌, ◌++◌, arith}
use vyaparaflowai.Prelude.Int.{ℤ, pos, ◌+ℤ◌, int_laws}
use vyaparaflowai.Prelude.Sorting.{insert, sorted}

swap : (a b c : ℤ) → a +ℤ (b +ℤ c) ≡ b +ℤ (a +ℤ c)
swap a b c = omega int_laws

module _ {ℓ} {A : Type ℓ} where
  abbrev pub sum_of : (A → ℤ) → List A → ℤ
  sum_of f [] = pos 0
  sum_of f (x ∷ xs) = f x +ℤ sum_of f xs

  pub sum_of-append :
      (f : A → ℤ) (xs ys : List A) → sum_of f (xs ++ ys) ≡ sum_of f xs +ℤ sum_of f ys
  sum_of-append f [] ys = omega int_laws
  sum_of-append f (x ∷ xs) ys = rw (sum_of-append f xs ys) (omega int_laws)

  sum_of-insert :
      (before : A → A → Bool) (f : A → ℤ) (x : A) (xs : List A)
      → sum_of f (insert before x xs) ≡ f x +ℤ sum_of f xs
  unfolding insert
  sum_of-insert before f x [] = refl
  sum_of-insert before f x (y ∷ ys) =
      ground (arith, sum_of-insert before f x ys, swap (f y) (f x) (sum_of f ys))

  pub sum_of-sorted :
      (before : A → A → Bool) (f : A → ℤ) (xs : List A) → sum_of f (sorted before xs) ≡ sum_of f xs
  unfolding sorted
  sum_of-sorted before f [] = refl
  sum_of-sorted before f (x ∷ xs) =
      rw (sum_of-insert before f x (sorted before xs), sum_of-sorted before f xs)
