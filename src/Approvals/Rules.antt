-- ===== src/Approvals/Rules.antt =====
-- Who has to approve (`determine_approval_chain` of backend/app/services/approvals.py). Amounts are
-- integers of paise.
use text.Mathlib.Text.{◌==◌ as str_eq}
use vyaparaflowai.Prelude.{
  ℕ, ◌+◌, Bool, true, false, Option, none, some, List, [], ◌∷◌, ◌++◌, String, leb, if◌then◌else◌,
  length, is_empty,
}
use vyaparaflowai.Prelude.Int.{ℤ, pos, ltb_ℤ}

pub data RoleName : Type 0 where
  manager owner : RoleName

-- The lines of `reasoning`, by the rule that gave them.
pub data Reason : Type 0 where
  over_owner_threshold over_auto_approve_threshold : Reason
  capital_category : Reason
  high_risk elevated_risk : ℕ → Reason

pub record ApprovalLevelRule : Type 0 where
  pub level : ℕ
  pub role : RoleName

pub record ApprovalChainPlan : Type 0 where
  pub levels : List ApprovalLevelRule
  pub auto_approved : Bool
  pub reasoning : List Reason

-- Rs. 10,000 and Rs. 1,00,000.
abbrev pub auto_approve_limit : ℤ
auto_approve_limit = pos 1_000_000

abbrev pub owner_required_amount : ℤ
owner_required_amount = pos 10_000_000

abbrev pub high_risk_threshold : ℕ
high_risk_threshold = 60

abbrev pub elevated_risk_threshold : ℕ
elevated_risk_threshold = 20

-- What the rules seen so far ask for.
pub record Required : Type 0 where
  pub requires_manager : Bool
  pub requires_owner : Bool
  pub reasoning : List Reason

unfoldable pub by_amount : ℤ → Required → Required
by_amount amount r =
    if ltb_ℤ owner_required_amount amount
    then record {
      requires_manager = true;
      requires_owner = true;
      reasoning = r.reasoning ++ over_owner_threshold ∷ [];
    }
    else if ltb_ℤ auto_approve_limit amount
    then record r {
      requires_manager = true;
      reasoning = r.reasoning ++ over_auto_approve_threshold ∷ [];
    }
    else r

-- `category == "capital"`
abbrev pub is_capital : Option String → Bool
is_capital none = false
is_capital (some category) = str_eq category "capital"

unfoldable pub by_category : Option String → Required → Required
by_category category r =
    if is_capital category
    then record r { requires_owner = true; reasoning = r.reasoning ++ capital_category ∷ [] }
    else r

unfoldable pub by_risk : Option ℕ → Required → Required
by_risk none r = r
by_risk (some score) r =
    if leb high_risk_threshold score
    then record r { requires_owner = true; reasoning = r.reasoning ++ high_risk score ∷ [] }
    else if leb elevated_risk_threshold score
    then record r { requires_manager = true; reasoning = r.reasoning ++ elevated_risk score ∷ [] }
    else r

abbrev pub manager_levels : Bool → List ApprovalLevelRule
manager_levels true = record { level = 1; role = manager } ∷ []
manager_levels false = []

abbrev pub with_owner : Bool → List ApprovalLevelRule → List ApprovalLevelRule
with_owner true levels = levels ++ record { level = length levels + 1; role = owner } ∷ []
with_owner false levels = levels

unfoldable pub determine_approval_chain : ℤ → Option String → Option ℕ → ApprovalChainPlan
unfolding by_amount by_category by_risk
determine_approval_chain amount category supplier_risk_score =
    let start : Required = record {
      requires_manager = false;
      requires_owner = false;
      reasoning = [];
    } in
    let r = by_risk supplier_risk_score (by_category category (by_amount amount start)) in
    let levels = with_owner r.requires_owner (manager_levels r.requires_manager) in
    record { levels = levels; auto_approved = is_empty levels; reasoning = r.reasoning }
