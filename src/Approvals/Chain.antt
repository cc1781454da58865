-- ===== src/Approvals/Chain.antt =====
-- The rows of `approvals` and the queries on them (backend/app/db/models/workflow.py,
-- backend/app/db/models/org.py, backend/app/db/models/enums.py).
use text.Mathlib.Text.{◌==◌ as str_eq}
use vyaparaflowai.Prelude.{
  ℕ, Bool, true, false, ◌&&◌, Option, none, some, List, [], ◌∷◌, String, ◌==◌, if◌then◌else◌, any,
  find,
}
use vyaparaflowai.Prelude.Int.{ℤ}

pub data ApprovalStatus : Type 0 where
  pending approved rejected delegated escalated : ApprovalStatus

-- Times are integers of seconds.
pub record Approval : Type 0 where
  pub id : ℕ
  pub org_id : ℕ
  pub entity_type : String
  pub entity_id : ℕ
  pub level : ℕ
  pub approver_id : Option ℕ
  pub status : ApprovalStatus
  pub sla_due_at : Option ℤ
  pub decided_at : Option ℤ
  pub created_at : ℤ
  pub comment : Option String

pub record User : Type 0 where
  pub id : ℕ
  pub org_id : ℕ
  pub is_active : Bool

pub record Role : Type 0 where
  pub id : ℕ
  pub name : String

pub record UserRole : Type 0 where
  pub user_id : ℕ
  pub role_id : ℕ

-- `clock` is the time of the transaction, which dates new rows.
pub record ApprovalsDb : Type 0 where
  pub approvals : List Approval
  pub users : List User
  pub roles : List Role
  pub user_roles : List UserRole
  pub clock : ℤ

-- `_OPEN_STATUSES`
abbrev pub is_open : ApprovalStatus → Bool
is_open pending = true
is_open escalated = true
is_open _ = false

abbrev pub is_pending : ApprovalStatus → Bool
is_pending pending = true
is_pending _ = false

abbrev pub is_approved : ApprovalStatus → Bool
is_approved approved = true
is_approved _ = false

abbrev pub is_rejected : ApprovalStatus → Bool
is_rejected rejected = true
is_rejected _ = false

abbrev pub is_delegated : ApprovalStatus → Bool
is_delegated delegated = true
is_delegated _ = false

-- The rows of one entity's chain.
abbrev pub is_for : (org_id : ℕ) → (entity_type : String) → (entity_id : ℕ) → Approval → Bool
is_for org_id entity_type entity_id row =
    row.org_id == org_id && (str_eq row.entity_type entity_type && row.entity_id == entity_id)

abbrev pub is_same_entity : Approval → Approval → Bool
is_same_entity approval row = is_for approval.org_id approval.entity_type approval.entity_id row

-- An UPDATE of the rows that pass a test.
unfoldable pub update_where :
    (Approval → Bool) → (Approval → Approval) → List Approval → List Approval
update_where test change [] = []
update_where test change (row ∷ rows) =
    (if test row then change row else row) ∷ update_where test change rows

abbrev pub has_id : ℕ → Approval → Bool
has_id id row = row.id == id

-- `_find_role_user_id`: an active user of the organization who holds the role.
unfoldable pub find_role_user_id : ℕ → String → ApprovalsDb → Option ℕ
find_role_user_id org_id role_name db =
    let holds = λ (user : User).
      any
        (λ link.
          link.user_id == user.id
          && any (λ role. role.id == link.role_id && str_eq role.name role_name) db.roles)
        db.user_roles in
    elim (find (λ user. user.org_id == org_id && user.is_active && holds user) db.users) [
      | none ↦ none
      | some user ↦ some user.id
    ]
