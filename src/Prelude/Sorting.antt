-- ===== src/Prelude/Sorting.antt =====
-- Python's `sorted(xs, key=…)`: a stable sort, here by insertion, by a test that says whether
-- one element may stand before another.
use vyaparaflowai.Prelude.Tests.{if◌then◌else◌, Bool-cases}
use vyaparaflowai.Prelude.Lists.{All, In, Pairwise, total}
use Prim.Native.Nat.{ℕ, ◌+◌}
use mathlib.Core.Path.{◌≡◌, refl}
use mathlib.Core.Logic.{◌⊎◌, inl, inr}
use mathlib.Core.Bool.{Bool, true, false}
use mathlib.Core.List.{List, [], ◌∷◌}
use native.Mathlib.Omega.{arith}

module _ {ℓ} {A : Type ℓ} (before : A → A → Bool) where
  unfoldable pub insert : A → List A → List A
  insert x [] = x ∷ []
  insert x (y ∷ ys) = if before x y then x ∷ y ∷ ys else y ∷ insert x ys

  unfoldable pub sorted : List A → List A
  unfolding insert
  sorted [] = []
  sorted (x ∷ xs) = insert x (sorted xs)

  total-insert : (f : A → ℕ) (x : A) (xs : List A) → total f (insert x xs) ≡ f x + total f xs
  unfolding insert
  total-insert f x [] = refl
  total-insert f x (y ∷ ys) = ground (arith, total-insert f x ys)

  -- Sorting keeps every sum over the list.
  pub total-sorted : (f : A → ℕ) (xs : List A) → total f (sorted xs) ≡ total f xs
  unfolding sorted
  total-sorted f [] = refl
  total-sorted f (x ∷ xs) = ground (arith, total-insert f x (sorted xs), total-sorted f xs)

  All-insert {κ} : (P : A → Type κ) (x : A) (xs : List A) → P x → All P xs → All P (insert x xs)
  unfolding insert
  All-insert P x [] p h = (p, tt)
  All-insert P x (y ∷ ys) p h = elim (Bool-cases (before x y)) [
    | inl e ↦ rw e (p, h)
    | inr e ↦ rw e (h.0, All-insert P x ys p h.1)
  ]

  -- A predicate that holds throughout a list holds throughout the sorted list.
  pub All-sorted {κ} : (P : A → Type κ) (xs : List A) → All P xs → All P (sorted xs)
  unfolding sorted
  All-sorted P [] h = tt
  All-sorted P (x ∷ xs) h = All-insert P x (sorted xs) h.0 (All-sorted P xs h.1)

  module _ {κ} (R : A → A → Type κ) (symm : (x y : A) → R x y → R y x) where
    Pairwise-insert :
        (x : A) (xs : List A) → All (R x) xs → Pairwise R xs → Pairwise R (insert x xs)
    unfolding insert
    Pairwise-insert x [] r h = (tt, tt)
    Pairwise-insert x (y ∷ ys) r h = elim (Bool-cases (before x y)) [
      | inl e ↦ rw e (r, h)
      | inr e ↦ rw e (All-insert (R y) x ys (symm x y r.0) h.0, Pairwise-insert x ys r.1 h.1)
    ]

    -- A symmetric relation between all the elements outlives sorting.
    pub Pairwise-sorted : (xs : List A) → Pairwise R xs → Pairwise R (sorted xs)
    unfolding sorted
    Pairwise-sorted [] h = tt
    Pairwise-sorted (x ∷ xs) h =
        Pairwise-insert x (sorted xs) (All-sorted (R x) xs h.0) (Pairwise-sorted xs h.1)

  -- No element may be placed before its left neighbour only.
  abbrev pub IsAscending : List A → Type 0
  IsAscending [] = Unit
  IsAscending (x ∷ xs) = All (λ y. before x y ≡ true) xs × IsAscending xs

  module _ (total_order : (x y : A) → before x y ≡ false → before y x ≡ true)
      (trans : (x y z : A) → before x y ≡ true → before y z ≡ true → before x z ≡ true) where
    All-before :
        (x y : A) (ys : List A)
        → before x y ≡ true
        → All (λ z. before y z ≡ true) ys
        → All (λ z. before x z ≡ true) ys
    All-before x y [] e h = tt
    All-before x y (z ∷ zs) e h = (trans x y z e h.0, All-before x y zs e h.1)

    insert-IsAscending : (x : A) (xs : List A) → IsAscending xs → IsAscending (insert x xs)
    unfolding insert
    insert-IsAscending x [] h = (tt, tt)
    insert-IsAscending x (y ∷ ys) h = elim (Bool-cases (before x y)) [
      | inl e ↦ rw e ((e, All-before x y ys e h.0), h)
      | inr e ↦ rw e (
        All-insert (λ z. before y z ≡ true) x ys (total_order x y e) h.0,
        insert-IsAscending x ys h.1,
      )
    ]

    pub sorted-IsAscending : (xs : List A) → IsAscending (sorted xs)
    unfolding sorted
    sorted-IsAscending [] = tt
    sorted-IsAscending (x ∷ xs) = insert-IsAscending x (sorted xs) (sorted-IsAscending xs)

module _ {A : Type 0} (before : A → A → Bool) where
  In-insert : (x : A) (xs : List A) (a : A) → In a (insert before x xs) → (x ≡ a) ⊎ In a xs
  unfolding insert
  In-insert x [] a (inl e) = inl e
  In-insert x [] a (inr m) = absurd m
  In-insert x (y ∷ ys) a m = elim (Bool-cases (before x y)) [
    | inl e ↦ let m' : In a (x ∷ y ∷ ys) = rw e at m in m'
    | inr e ↦
        let m' : In a (y ∷ insert before x ys) = rw e at m in
        elim m' [
          | inl same ↦ inr (inl same)
          | inr later ↦ elim (In-insert x ys a later) [
            | inl same ↦ inl same
            | inr old ↦ inr (inr old)
          ]
        ]
  ]

  -- Sorting adds no element.
  pub In-sorted : (xs : List A) (a : A) → In a (sorted before xs) → In a xs
  unfolding sorted
  In-sorted [] a m = m
  In-sorted (x ∷ xs) a m = elim (In-insert x (sorted before xs) a m) [
    | inl e ↦ inl e
    | inr later ↦ inr (In-sorted xs a later)
  ]

  insert-In : (x : A) (xs : List A) (a : A) → (x ≡ a) ⊎ In a xs → In a (insert before x xs)
  unfolding insert
  insert-In x [] a m = m
  insert-In x (y ∷ ys) a m = elim (Bool-cases (before x y)) [
    | inl e ↦ rw e m
    | inr e ↦ rw e (elim m [
      | inl same ↦ inr (insert-In x ys a (inl same))
      | inr (inl first) ↦ inl first
      | inr (inr later) ↦ inr (insert-In x ys a (inr later))
    ])
  ]

  -- Sorting loses no element.
  pub sorted-In : (xs : List A) (a : A) → In a xs → In a (sorted before xs)
  unfolding sorted
  sorted-In [] a m = m
  sorted-In (x ∷ xs) a (inl e) = insert-In x (sorted before xs) a (inl e)
  sorted-In (x ∷ xs) a (inr m) = insert-In x (sorted before xs) a (inr (sorted-In xs a m))
