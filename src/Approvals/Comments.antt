-- ===== src/Approvals/Comments.antt =====
-- What the operations share: `_append_comment` of backend/app/services/approvals.py, the time a
-- caller may give, and the entity a chain is for.
use text.Mathlib.Text.{◌==◌ as str_eq}
use Prim.Native.String.{◌++◌ as str_append}
use vyaparaflowai.Prelude.{ℕ, Bool, Option, none, some, List, String, if◌then◌else◌}
use vyaparaflowai.Prelude.Int.{ℤ}
use vyaparaflowai.Approvals.Rules.{Reason}
use vyaparaflowai.Approvals.Chain.{Approval, is_for}

-- `_append_comment`; Python takes an empty text for none.
abbrev pub append_comment : Option String → Option String → Option String
append_comment existing none = existing
append_comment existing (some addition) = if str_eq addition "" then existing else elim existing [
  | none ↦ some addition
  | some text ↦
      if str_eq text "" then some addition else some (str_append text (str_append " | " addition))
]

-- The texts of ids, and of what the rules said, which the comments quote.
pub record Texts : Type 0 where
  pub id_text : ℕ → String
  pub reasons_text : List Reason → String
  -- `f"delegated to {id}: {comment or ''}".strip(": ")`
  pub delegation_text : ℕ → Option String → String

-- The second of `some`, if any (`now or datetime.now(UTC)`): the caller's time, or the clock's.
abbrev pub time_or : Option ℤ → ℤ → ℤ
time_or none clock = clock
time_or (some now) clock = now

pub record Entity : Type 0 where
  pub org_id : ℕ
  pub entity_type : String
  pub entity_id : ℕ

abbrev pub belongs : Entity → Approval → Bool
belongs e row = is_for e.org_id e.entity_type e.entity_id row
