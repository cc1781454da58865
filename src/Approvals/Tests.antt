-- ===== src/Approvals/Tests.antt =====
-- The theorems on the approval chains at concrete rows.
use vyaparaflowai.Prelude.{
  ℕ, ◌<◌, ◌≡◌, refl, inl, inr, true, false, not, ◌||◌, none, some, [], ◌∷◌, String, arith, In,
}
use vyaparaflowai.Prelude.Int.{pos, ◌+ℤ◌, ◌-ℤ◌}
use vyaparaflowai.Errors.{Result, ok, err, conflict}
use vyaparaflowai.Approvals.Rules.{determine_approval_chain}
use vyaparaflowai.Approvals.Chain.{
  ApprovalStatus, pending, approved, rejected, delegated, Approval, ApprovalsDb, is_open,
  is_same_entity, update_where,
}
use vyaparaflowai.Approvals.Comments.{Texts}
use vyaparaflowai.Approvals.Decisions.{parse_decision, get_approval, decide_approval}
use vyaparaflowai.Approvals.Handover.{delegate_approval}
use vyaparaflowai.Approvals.Required.{
  asks_manager, asks_owner, levels_for, determine_approval_chain-levels,
}
use vyaparaflowai.Approvals.Gate.{decide_approval-approved_before}
use vyaparaflowai.Approvals.Cascade.{decide_approval-closes}
use vyaparaflowai.Approvals.History.{
  Steps, done, then_step, delegated_to, settled_row-kept, delegated-blocks_for_ever,
}

determine_approval_chain-levels_example :
    ((determine_approval_chain (pos 20_000_000) (some "capital") (some 70)).levels
      ≡ levels_for
          (asks_manager (pos 20_000_000) (some 70))
          (asks_owner (pos 20_000_000) (some "capital") (some 70)))
    × ((determine_approval_chain (pos 20_000_000) (some "capital") (some 70)).auto_approved
        ≡ not (
            asks_manager (pos 20_000_000) (some 70)
            || asks_owner (pos 20_000_000) (some "capital") (some 70)))
determine_approval_chain-levels_example =
    determine_approval_chain-levels (pos 20_000_000) (some "capital") (some 70) refl

abbrev row_of : ℕ → ℕ → ApprovalStatus → Approval
row_of id level status = record {
  id = id;
  org_id = 1;
  entity_type = "purchase_order";
  entity_id = 8;
  level = level;
  approver_id = none;
  status = status;
  sla_due_at = none;
  decided_at = none;
  created_at = pos 0;
  comment = none;
}

abbrev chain_of : ApprovalStatus → ApprovalsDb
chain_of first = record {
  approvals = row_of 1 1 first ∷ row_of 2 2 pending ∷ [];
  users = [];
  roles = [];
  user_roles = [];
  clock = pos 100;
}

-- What a result holds, or the given value.
abbrev value_or {ℓ} : {A : Type ℓ} → A → Result A → A
value_or a (ok b) = b
value_or a (err e) = a

abbrev decided_row : ApprovalStatus → ℕ → String → Approval × ApprovalsDb
decided_row first id decision =
    value_or (row_of 1 1 first, chain_of first)
      (decide_approval 1 id 4 decision none none (chain_of first))

second_approved-eq :
    decide_approval 1 2 4 "approve" none none (chain_of approved)
    ≡ ok (decided_row approved 2 "approve")
unfolding decide_approval parse_decision get_approval update_where
second_approved-eq = refl

second-found : get_approval 1 2 (chain_of approved).approvals ≡ ok (row_of 2 2 pending)
unfolding get_approval
second-found = refl

decide_approval-approved_before_example : approved ≡ approved
decide_approval-approved_before_example =
    decide_approval-approved_before 1 2 4 none none (chain_of approved) (row_of 2 2 pending)
      (row_of 1 1 approved) second-found second_approved-eq (inl refl) refl (omega arith)

first_rejected-eq :
    decide_approval 1 1 4 "reject" none none (chain_of pending)
    ≡ ok ((decided_row pending 1 "reject").0, (decided_row pending 1 "reject").1)
unfolding decide_approval parse_decision get_approval update_where
first_rejected-eq = refl

-- The second row after the rejection of the first.
abbrev cascaded_row : Approval
cascaded_row = record (row_of 2 2 rejected) {
  decided_at = some (pos 100);
  comment = some "auto-rejected: an earlier approval level was rejected";
}

cascaded_row-In : In cascaded_row (decided_row pending 1 "reject").1.approvals
unfolding decide_approval parse_decision get_approval update_where
cascaded_row-In = inr (inl refl)

cascaded_row-same : is_same_entity (decided_row pending 1 "reject").0 cascaded_row ≡ true
unfolding decide_approval parse_decision get_approval update_where
cascaded_row-same = refl

decide_approval-closes_example : is_open cascaded_row.status ≡ false
decide_approval-closes_example =
    decide_approval-closes 1 1 4 none none (chain_of pending) (decided_row pending 1 "reject").1
      (decided_row pending 1 "reject").0 cascaded_row first_rejected-eq cascaded_row-In
      cascaded_row-same

abbrev texts : Texts
texts = record {
  id_text = λ id. "id";
  reasons_text = λ reasons. "reasons";
  delegation_text = λ id comment. "delegated";
}

abbrev delegated_pair : Approval × ApprovalsDb
delegated_pair =
    value_or (row_of 2 2 pending, chain_of delegated)
      (delegate_approval texts 1 2 6 3 none none (chain_of delegated))

delegated_pair-eq :
    delegate_approval texts 1 2 6 3 none none (chain_of delegated)
    ≡ ok (delegated_pair.0, delegated_pair.1)
unfolding delegate_approval get_approval update_where ◌+ℤ◌ ◌-ℤ◌
delegated_pair-eq = refl

one_step : Steps texts (chain_of delegated) delegated_pair.1
unfolding delegate_approval get_approval update_where ◌+ℤ◌ ◌-ℤ◌
one_step =
    then_step
      (delegated_to 1 2 6 3 none none delegated_pair.0 delegated_pair-eq
        (((λ h. omega arith), ((λ h. omega arith), tt)), (((λ h. omega arith), tt), (tt, tt))))
      done

settled_row-kept_example : In (row_of 1 1 delegated) delegated_pair.1.approvals
settled_row-kept_example =
    settled_row-kept texts (row_of 1 1 delegated) (((λ h. omega arith), tt), (tt, tt)) one_step
      (inl refl) refl

third-found : get_approval 1 3 delegated_pair.1.approvals ≡ ok delegated_pair.0
unfolding delegate_approval get_approval update_where ◌+ℤ◌ ◌-ℤ◌
third-found = refl

third-same :
    (is_same_entity delegated_pair.0 (row_of 1 1 delegated) ≡ true) × (1 < delegated_pair.0.level)
unfolding delegate_approval get_approval update_where ◌+ℤ◌ ◌-ℤ◌
third-same = (refl, omega arith)

delegated-blocks_for_ever_example :
    decide_approval 1 3 6 "approve" none none delegated_pair.1 ≡ err conflict
delegated-blocks_for_ever_example =
    delegated-blocks_for_ever texts (((λ h. omega arith), tt), (tt, tt)) one_step
      (row_of 1 1 delegated) delegated_pair.0 (inl refl) refl 1 3 6 none none third-found
      third-same.0 third-same.1
