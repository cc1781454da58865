-- ===== src/Approvals/Creation.antt =====
-- `create_approval_chain` of backend/app/services/approvals.py.
use Prim.Native.String.{◌++◌ as str_append}
use vyaparaflowai.Prelude.{
  ℕ, ◌*◌, Bool, true, false, Option, none, some, List, [], ◌++◌, map, String, if◌then◌else◌, any,
}
use vyaparaflowai.Prelude.Int.{ℤ, pos, ◌+ℤ◌}
use vyaparaflowai.Errors.{Result, ok, conflict, ◌>>◌, raise_if}
use vyaparaflowai.Approvals.Rules.{
  RoleName, manager, owner, Reason, ApprovalLevelRule, ApprovalChainPlan, determine_approval_chain,
}
use vyaparaflowai.Approvals.Chain.{pending, Approval, ApprovalsDb}
use vyaparaflowai.Approvals.Comments.{Texts, time_or, Entity, belongs}

abbrev pub role_text : RoleName → String
role_text manager = "Manager"
role_text owner = "Owner"

pub record CreatedApprovalLevel : Type 0 where
  pub approval_id : ℕ
  pub level : ℕ
  pub role : RoleName
  pub sla_due_at : ℤ

-- The result of the source also repeats the entity of the request.
pub record CreateApprovalChainResult : Type 0 where
  pub auto_approved : Bool
  pub levels : List CreatedApprovalLevel
  pub reasoning : List Reason

pub record ChainRequest : Type 0 where
  pub entity : Entity
  pub amount : ℤ
  pub category : Option String
  pub supplier_risk_score : Option ℕ
  pub sla_hours_per_level : ℕ
  pub now : Option ℤ

module _ (texts : Texts) where
  -- The row of one level. `new_id` gives the UUID of the row of a level.
  abbrev pub level_row :
      ChainRequest → ApprovalChainPlan → (ℕ → ℕ) → ℤ → ApprovalLevelRule → Approval
  level_row request plan new_id clock rule = record {
    id = new_id rule.level;
    org_id = request.entity.org_id;
    entity_type = request.entity.entity_type;
    entity_id = request.entity.entity_id;
    level = rule.level;
    approver_id = none;
    status = pending;
    sla_due_at =
        some (time_or request.now clock +ℤ pos (request.sla_hours_per_level * rule.level * 3600));
    decided_at = none;
    created_at = clock;
    comment = some (
        str_append "requires " (
          str_append (role_text rule.role)
            (str_append " approval — " (texts.reasons_text plan.reasoning))));
  }

  abbrev pub created_level : ChainRequest → (ℕ → ℕ) → ℤ → ApprovalLevelRule → CreatedApprovalLevel
  created_level request new_id clock rule = record {
    approval_id = new_id rule.level;
    level = rule.level;
    role = rule.role;
    sla_due_at = time_or request.now clock +ℤ pos (request.sla_hours_per_level * rule.level * 3600);
  }

  unfoldable pub create_approval_chain :
      ChainRequest → (ℕ → ℕ) → ApprovalsDb → Result (CreateApprovalChainResult × ApprovalsDb)
  create_approval_chain request new_id db =
      let plan =
        determine_approval_chain request.amount request.category request.supplier_risk_score in
      raise_if (any (belongs request.entity) db.approvals) conflict
      >> (if plan.auto_approved
          then ok (record { auto_approved = true; levels = []; reasoning = plan.reasoning }, db)
          else ok (
            record {
              auto_approved = false;
              levels = map (created_level request new_id db.clock) plan.levels;
              reasoning = plan.reasoning;
            },
            record db {
              approvals = db.approvals ++ map (level_row request plan new_id db.clock) plan.levels;
            },
          ))
