-- ===== src/Approvals/Required.antt =====
-- The plan of `determine_approval_chain` against the table of thresholds.
use vyaparaflowai.Prelude.{
  ℕ, ◌≤◌, ◌≡◌, Bool, true, false, not, ◌&&◌, ◌||◌, Option, none, some, List, [], ◌∷◌, String, arith,
  leb, length,
}
use vyaparaflowai.Prelude.Int.{ℤ, ltb_ℤ, ◌≤ℤ◌}
use vyaparaflowai.Approvals.Rules.{
  manager, owner, ApprovalLevelRule, auto_approve_limit, owner_required_amount, high_risk_threshold,
  elevated_risk_threshold, is_capital, by_amount, by_category, by_risk, determine_approval_chain,
}

-- A risk score that is known and at least so high.
abbrev pub at_least : ℕ → Option ℕ → Bool
at_least threshold none = false
at_least threshold (some score) = leb threshold score

abbrev pub asks_owner : ℤ → Option String → Option ℕ → Bool
asks_owner amount category risk =
    ltb_ℤ owner_required_amount amount || is_capital category || at_least high_risk_threshold risk

abbrev pub asks_manager : ℤ → Option ℕ → Bool
asks_manager amount risk = ltb_ℤ auto_approve_limit amount || at_least elevated_risk_threshold risk

-- The levels for a manager and an owner, each asked or not.
abbrev pub levels_for : Bool → Bool → List ApprovalLevelRule
levels_for true true =
    record { level = 1; role = manager } ∷ record { level = 2; role = owner } ∷ []
levels_for true false = record { level = 1; role = manager } ∷ []
levels_for false true = record { level = 1; role = owner } ∷ []
levels_for false false = []

owner_amount-is_over_limit :
    (amount : ℤ)
    → ltb_ℤ owner_required_amount amount ≡ true
    → ltb_ℤ auto_approve_limit amount ≡ true
owner_amount-is_over_limit amount h = ground arith

-- For an amount beyond the limit of automatic approval, or a risk that is unknown or below the
-- threshold of high risk, the levels of a plan are those of the roles that the table of thresholds
-- asks for, the manager's first, numbered from 1; and it is approved at once exactly when no role is
-- asked.
pub determine_approval_chain-levels :
    (amount : ℤ) (category : Option String) (risk : Option ℕ)
    → at_least high_risk_threshold risk && not (ltb_ℤ auto_approve_limit amount) ≡ false
    → ((determine_approval_chain amount category risk).levels
        ≡ levels_for (asks_manager amount risk) (asks_owner amount category risk))
      × ((determine_approval_chain amount category risk).auto_approved
          ≡ not (asks_manager amount risk || asks_owner amount category risk))
unfolding determine_approval_chain by_amount by_category by_risk
determine_approval_chain-levels amount category none low =
    ground (arith, low, owner_amount-is_over_limit amount)
determine_approval_chain-levels amount category (some score) low =
    ground (arith, low, owner_amount-is_over_limit amount)

-- A high risk asks the owner alone for an amount within the limit of automatic approval, although
-- the table of thresholds asks a manager for every risk of at least the elevated one.
pub determine_approval_chain-skips_manager :
    (amount : ℤ) (category : Option String) (score : ℕ)
    → high_risk_threshold ≤ score
    → amount ≤ℤ auto_approve_limit
    → (asks_manager amount (some score) ≡ true)
      × ((determine_approval_chain amount category (some score)).levels ≡ levels_for false true)
unfolding determine_approval_chain by_amount by_category by_risk
determine_approval_chain-skips_manager amount category score high small =
    ground (arith, high, small, owner_amount-is_over_limit amount)

-- A greater amount never takes fewer approvals, whatever the category and the risk.
pub determine_approval_chain-grows :
    (amount greater : ℤ) (category : Option String) (risk : Option ℕ)
    → amount ≤ℤ greater
    → length (determine_approval_chain amount category risk).levels
      ≤ length (determine_approval_chain greater category risk).levels
unfolding determine_approval_chain by_amount by_category by_risk
determine_approval_chain-grows amount greater category none h =
    ground (arith, owner_amount-is_over_limit amount, owner_amount-is_over_limit greater)
determine_approval_chain-grows amount greater category (some score) h =
    ground (arith, owner_amount-is_over_limit amount, owner_amount-is_over_limit greater)
