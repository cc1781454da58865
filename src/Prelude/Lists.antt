-- ===== src/Prelude/Lists.antt =====
-- Lists measured by native numbers under the library's names, and predicates and sums over them.
use Prim.Native.Nat.{ℕ, zero, suc, ◌+◌}
use mathlib.Core.Path.{◌≡◌, subst, refl, sym, ap, ◌∙◌}
use mathlib.Core.Logic.{◌⊎◌, ◌≢◌, inl, inr}
use mathlib.Core.Bool.{Bool, true, false, ◌&&◌, ◌||◌}
use mathlib.Core.Option.{Option, none, some}
use mathlib.Core.List.{List, [], ◌∷◌}
use vyaparaflowai.Prelude.Tests.{if◌then◌else◌, Bool-cases}

module _ {ℓ} {A : Type ℓ} where
  abbrev pub length : List A → ℕ
  length [] = 0
  length (x ∷ xs) = suc (length xs)

  abbrev pub take : ℕ → List A → List A
  take zero xs = []
  take (suc n) [] = []
  take (suc n) (x ∷ xs) = x ∷ take n xs

  -- `not xs`
  abbrev pub is_empty : List A → Bool
  is_empty [] = true
  is_empty (x ∷ xs) = false

  -- `any(test(x) for x in xs)`
  abbrev pub any : (A → Bool) → List A → Bool
  any test [] = false
  any test (x ∷ xs) = test x || any test xs

  -- `all(test(x) for x in xs)`
  abbrev pub all : (A → Bool) → List A → Bool
  all test [] = true
  all test (x ∷ xs) = test x && all test xs

  -- `[x for x in xs if test(x)]`, and the rows of a query with a `WHERE` clause.
  abbrev pub filter : (A → Bool) → List A → List A
  filter test [] = []
  filter test (x ∷ xs) = if test x then x ∷ filter test xs else filter test xs

  -- The first element that passes, as `.first()` on a query gives it.
  abbrev pub find : (A → Bool) → List A → Option A
  find test [] = none
  find test (x ∷ xs) = if test x then some x else find test xs

  abbrev pub All {κ} : (A → Type κ) → List A → Type κ
  All P [] = Unit
  All P (x ∷ xs) = P x × All P xs

  -- The sum of a measure over a list.
  abbrev pub total : (A → ℕ) → List A → ℕ
  total f [] = 0
  total f (x ∷ xs) = f x + total f xs

  -- Every element is related to those after it.
  abbrev pub Pairwise {κ} : (A → A → Type κ) → List A → Type κ
  Pairwise R [] = Unit
  Pairwise R (x ∷ xs) = All (R x) xs × Pairwise R xs

module _ {A : Type 0} where
  -- Whether an element stands in a list.
  abbrev pub In : A → List A → Type 0
  In a [] = ⊥
  In a (x ∷ xs) = (x ≡ a) ⊎ In a xs

  pub All-In {κ} : (P : A → Type κ) (xs : List A) (a : A) → All P xs → In a xs → P a
  All-In P [] a h m = absurd m
  All-In P (x ∷ xs) a h (inl e) = subst P e h.0
  All-In P (x ∷ xs) a h (inr m) = All-In P xs a h.1 m

  -- What a search finds stands in the list and passes.
  pub find-In :
      (test : A → Bool) (xs : List A) (a : A) → find test xs ≡ some a → In a xs × (test a ≡ true)
  find-In test [] a h = cc
  find-In test (x ∷ xs) a h = elim (Bool-cases (test x)) [
    | inl e ↦
        let same : some x ≡ some a = rw e at h in
        let x_is_a : x ≡ a = cc in (inl x_is_a, subst (λ y. test y ≡ true) x_is_a e)
    | inr e ↦ let (m, passes) = find-In test xs a (rw e at h) in (inr m, passes)
  ]

  -- A test that an element passes.
  pub any-In :
      (test : A → Bool) (xs : List A) (a : A) → In a xs → test a ≡ true → any test xs ≡ true
  any-In test [] a m h = absurd m
  any-In test (x ∷ xs) a (inl e) h = rw (subst (λ y. test y ≡ true) (sym e) h) refl
  any-In test (x ∷ xs) a (inr m) h = elim (Bool-cases (test x)) [
    | inl e ↦ rw e refl
    | inr e ↦ rw e (any-In test xs a m h)
  ]

  -- A test that no element passes.
  pub any-none :
      (test : A → Bool) (xs : List A) (a : A) → any test xs ≡ false → In a xs → test a ≡ false
  any-none test [] a h m = absurd m
  any-none test (x ∷ xs) a h m = elim (Bool-cases (test a)) [
    | inl e ↦ let passes : true ≡ false = sym (any-In test (x ∷ xs) a m e) ∙ h in cc
    | inr e ↦ e
  ]

  -- A query finds every row that passes.
  pub filter-In :
      (test : A → Bool) (xs : List A) (a : A) → In a xs → test a ≡ true → In a (filter test xs)
  filter-In test [] a m h = m
  filter-In test (x ∷ xs) a (inl e) h =
      subst (λ y. In a (if test y then y ∷ filter test xs else filter test xs)) (sym e)
        (rw h (inl refl))
  filter-In test (x ∷ xs) a (inr m) h = elim (Bool-cases (test x)) [
    | inl e ↦ rw e (inr (filter-In test xs a m h))
    | inr e ↦ rw e (filter-In test xs a m h)
  ]

  -- What a query finds stands in the table and passes.
  pub In-filter :
      (test : A → Bool) (xs : List A) (a : A) → In a (filter test xs) → In a xs × (test a ≡ true)
  In-filter test [] a m = absurd m
  In-filter test (x ∷ xs) a m = elim (Bool-cases (test x)) [
    | inl e ↦
        let m' : In a (x ∷ filter test xs) = rw e at m in
        elim m' [
          | inl same ↦ (inl same, subst (λ y. test y ≡ true) same e)
          | inr later ↦ let (n, passes) = In-filter test xs a later in (inr n, passes)
        ]
    | inr e ↦ let (n, passes) = In-filter test xs a (rw e at m) in (inr n, passes)
  ]

  -- A test that all elements pass.
  pub all-In :
      (test : A → Bool) (xs : List A) (a : A) → all test xs ≡ true → In a xs → test a ≡ true
  all-In test [] a h m = absurd m
  all-In test (x ∷ xs) a h m = elim (Bool-cases (test x)) [
    | inr e ↦ let clash : false ≡ true = rw (all, e) at h in cc
    | inl e ↦
        let rest : all test xs ≡ true = rw (all, e) at h in
        elim m [
          | inl same ↦ subst (λ y. test y ≡ true) same e
          | inr later ↦ all-In test xs a rest later
        ]
  ]

  -- An element that passes, where one does.
  pub any-find :
      (test : A → Bool) (xs : List A) → any test xs ≡ true → (a : A) × In a xs × (test a ≡ true)
  any-find test [] h = cc
  any-find test (x ∷ xs) h = elim (Bool-cases (test x)) [
    | inl e ↦ (x, inl refl, e)
    | inr e ↦ let (a, m, passes) = any-find test xs (rw (any, e) at h) in (a, inr m, passes)
  ]

  pub All-intro {κ} : (P : A → Type κ) (xs : List A) → ((a : A) → In a xs → P a) → All P xs
  All-intro P [] h = tt
  All-intro P (x ∷ xs) h = (h x (inl refl), All-intro P xs (λ a m. h a (inr m)))

  module _ (key : A → ℕ) where
    apart_key :
        (k : ℕ) (rows : List A) (row : A) → All (λ r. k ≢ key r) rows → In row rows → k ≢ key row
    apart_key k rows row h m = All-In (λ r. k ≢ key r) rows row h m

    -- Rows with a key of their own are equal if their keys are.
    pub same_key-eq :
        (rows : List A) (a b : A)
        → Pairwise (λ x y. key x ≢ key y) rows
        → In a rows
        → In b rows
        → key a ≡ key b
        → a ≡ b
    same_key-eq [] a b h m n e = absurd m
    same_key-eq (x ∷ rows) a b h (inl p) (inl q) e = sym p ∙ q
    same_key-eq (x ∷ rows) a b h (inl p) (inr n) e =
        absurd (apart_key (key x) rows b h.0 n (ap key p ∙ e))
    same_key-eq (x ∷ rows) a b h (inr m) (inl q) e =
        absurd (apart_key (key x) rows a h.0 m (ap key q ∙ sym e))
    same_key-eq (x ∷ rows) a b h (inr m) (inr n) e = same_key-eq rows a b h.1 m n e
