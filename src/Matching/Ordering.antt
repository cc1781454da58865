-- ===== src/Matching/Ordering.antt =====
-- The order of the lines, which Python's set does not fix.
use mathlib.Core.List.{Permᴰ}
use vyaparaflowai.Prelude.{
  ℕ, ◌≡◌, refl, sym, subst, ap, ◌∙◌, Bool, not, List, [], ◌∷◌, map, arith, ltb, if◌then◌else◌, any,
}
use vyaparaflowai.Prelude.Int.{ℤ, abs, int_laws}
use vyaparaflowai.Prelude.Sums.{sum_of}
use vyaparaflowai.Matching.Lines.{
  Reason, qty_variance, price_variance, price_spike, amount_variance, starts, mentions,
  MatchLineInput, MatchLineResult, evaluate_line,
}
use vyaparaflowai.Matching.Verdict.{
  MatchInput, is_structural, structural_issue, risk_score, verdict_of, worst_from,
  price_variance_worst, ThreeWayMatchOutcome, evaluate_three_way_match,
}

module _ {A : Type 0} where
  any-Perm : (test : A → Bool) {xs ys : List A} → Permᴰ xs ys → any test xs ≡ any test ys
  any-Perm test Permᴰ.nil = refl
  any-Perm test (Permᴰ.cons {a = a} {b = b} {l₁ = xs} {l₂ = ys} e p) =
      subst (λ c. any test (a ∷ xs) ≡ any test (c ∷ ys)) e (rw (any-Perm test p) refl)
  any-Perm test (Permᴰ.swap {a = a} {b = b} {a' = a'} {b' = b'} {l = xs} e f) =
      subst (λ c. any test (a ∷ b ∷ xs) ≡ any test (a' ∷ c ∷ xs)) e
        (subst (λ c. any test (a ∷ b ∷ xs) ≡ any test (c ∷ a ∷ xs)) f (ground arith))
  any-Perm test (Permᴰ.trans p q) = any-Perm test p ∙ any-Perm test q

  sum_of-Perm : (f : A → ℤ) {xs ys : List A} → Permᴰ xs ys → sum_of f xs ≡ sum_of f ys
  sum_of-Perm f Permᴰ.nil = refl
  sum_of-Perm f (Permᴰ.cons {a = a} {b = b} {l₁ = xs} {l₂ = ys} e p) =
      subst (λ c. sum_of f (a ∷ xs) ≡ sum_of f (c ∷ ys)) e (rw (sum_of-Perm f p) refl)
  sum_of-Perm f (Permᴰ.swap {a = a} {b = b} {a' = a'} {b' = b'} {l = xs} e g) =
      subst (λ c. sum_of f (a ∷ b ∷ xs) ≡ sum_of f (a' ∷ c ∷ xs)) e
        (subst (λ c. sum_of f (a ∷ b ∷ xs) ≡ sum_of f (c ∷ a ∷ xs)) g (omega int_laws))
  sum_of-Perm f (Permᴰ.trans p q) = sum_of-Perm f p ∙ sum_of-Perm f q

  -- The greatest of a measure, or 0.
  abbrev greatest : (A → ℕ) → List A → ℕ
  greatest f [] = 0
  greatest f (x ∷ xs) = if ltb (f x) (greatest f xs) then greatest f xs else f x

  greatest-Perm : (f : A → ℕ) {xs ys : List A} → Permᴰ xs ys → greatest f xs ≡ greatest f ys
  greatest-Perm f Permᴰ.nil = refl
  greatest-Perm f (Permᴰ.cons {a = a} {b = b} {l₁ = xs} {l₂ = ys} e p) =
      subst (λ c. greatest f (a ∷ xs) ≡ greatest f (c ∷ ys)) e (rw (greatest-Perm f p) refl)
  greatest-Perm f (Permᴰ.swap {a = a} {b = b} {a' = a'} {b' = b'} {l = xs} e g) =
      subst (λ c. greatest f (a ∷ b ∷ xs) ≡ greatest f (a' ∷ c ∷ xs)) e
        (subst (λ c. greatest f (a ∷ b ∷ xs) ≡ greatest f (c ∷ a ∷ xs)) g (ground arith))
  greatest-Perm f (Permᴰ.trans p q) = greatest-Perm f p ∙ greatest-Perm f q

  map-Perm : {B : Type 0} (f : A → B) {xs ys : List A} → Permᴰ xs ys → Permᴰ (map f xs) (map f ys)
  map-Perm f Permᴰ.nil = Permᴰ.nil
  map-Perm f (Permᴰ.cons e p) = Permᴰ.cons (ap f e) (map-Perm f p)
  map-Perm f (Permᴰ.swap e g) = Permᴰ.swap (ap f e) (ap f g)
  map-Perm f (Permᴰ.trans p q) = Permᴰ.trans (map-Perm f p) (map-Perm f q)

abbrev price_gap : MatchLineResult → ℕ
price_gap line = abs line.price_variance

worst_from-greatest :
    (worst : ℤ) (lines : List MatchLineResult)
    → abs (worst_from worst lines)
      ≡ (if ltb (abs worst) (greatest price_gap lines) then greatest price_gap lines else abs worst)
worst_from-greatest worst [] = ground arith
worst_from-greatest worst (line ∷ lines) =
    ground (arith, worst_from-greatest worst lines, worst_from-greatest line.price_variance lines)

price_variance_worst-greatest :
    (lines : List MatchLineResult) → abs (price_variance_worst lines) ≡ greatest price_gap lines
unfolding price_variance_worst
price_variance_worst-greatest [] = refl
price_variance_worst-greatest (line ∷ lines) =
    ground (arith, worst_from-greatest line.price_variance lines)

module _ (input : MatchInput) where
  structural_issue-Perm :
      {xs ys : List MatchLineResult}
      → Permᴰ xs ys
      → structural_issue input xs ≡ structural_issue input ys
  unfolding structural_issue
  structural_issue-Perm p =
      rw (any-Perm (λ (line : MatchLineResult). any is_structural line.reason_codes) p) refl

  risk_score-Perm :
      {xs ys : List MatchLineResult} → Permᴰ xs ys → risk_score input xs ≡ risk_score input ys
  unfolding risk_score
  risk_score-Perm p =
      let same = λ (test : Reason → Bool).
        any-Perm (λ (line : MatchLineResult). any test line.reason_codes) p in
      rw
        (
          structural_issue-Perm p,
          same (mentions qty_variance),
          same (starts price_variance),
          same (mentions price_spike),
          same (mentions amount_variance),
        )
        refl

  verdict_of-Perm :
      {xs ys : List MatchLineResult} → Permᴰ xs ys → verdict_of input xs ≡ verdict_of input ys
  unfolding verdict_of
  verdict_of-Perm p =
      rw
        (
          structural_issue-Perm p,
          risk_score-Perm p,
          any-Perm (λ (line : MatchLineResult). not line.within_tolerance) p,
        )
        refl

-- Two outcomes that differ at most in the order of their lines and reasons, and in which of the
-- furthest prices they name.
pub record Agree (a b : ThreeWayMatchOutcome) : Type 0 where
  pub verdict : a.verdict ≡ b.verdict
  pub risk_score : a.risk_score ≡ b.risk_score
  pub qty_variance : a.qty_variance ≡ b.qty_variance
  pub amount_variance : a.amount_variance ≡ b.amount_variance
  pub price_variance : abs a.price_variance ≡ abs b.price_variance

-- In whatever order the lines come, the verdict, the score and the variances are the same, that of the price
-- up to its sign.
pub evaluate_three_way_match-Perm :
    (input : MatchInput) (lines : List MatchLineInput)
    → Permᴰ input.lines lines
    → Agree
        (evaluate_three_way_match input)
        (evaluate_three_way_match (record input { lines = lines }))
unfolding evaluate_three_way_match structural_issue risk_score verdict_of
evaluate_three_way_match-Perm input lines p =
    let q = map-Perm (evaluate_line input.tolerances) p in
    record {
      verdict = verdict_of-Perm input q;
      risk_score = risk_score-Perm input q;
      qty_variance = sum_of-Perm (λ (line : MatchLineResult). line.qty_variance) q;
      amount_variance = sum_of-Perm (λ (line : MatchLineResult). line.amount_variance) q;
      price_variance =
          price_variance_worst-greatest _
          ∙ greatest-Perm price_gap q
          ∙ sym (price_variance_worst-greatest _);
    }
