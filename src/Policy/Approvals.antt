-- ===== src/Policy/Approvals.antt =====
-- The approval records (sip/policy/approvals.py). The time of a decision is an argument.
use semantic_intent_protocol.Base.{◌∙◌}
use semantic_intent_protocol.Base.{String, Option, some, List, [], ◌∷◌, ◌++◌, ℤ, ◌≡◌, refl}

pub data ApprovalState : Type 0 where
  pending approved denied not_required : ApprovalState

pub record ApprovalRecord : Type 0 where
  pub intent_id : String
  pub plan_id : String
  pub state : ApprovalState
  pub requested_at : ℤ
  pub decided_at : Option ℤ
  pub approver_id : Option String
  pub notes : String

unfoldable pub approve : ℤ → String → String → ApprovalRecord → ApprovalRecord
approve now approver_id notes r = record r {
  state = ApprovalState.approved;
  decided_at = some now;
  approver_id = some approver_id;
  notes = notes;
}

unfoldable pub deny : ℤ → String → String → ApprovalRecord → ApprovalRecord
deny now approver_id notes r = record r {
  state = ApprovalState.denied;
  decided_at = some now;
  approver_id = some approver_id;
  notes = notes;
}

-- A call of one of the two methods, with its time, the approver and the notes.
pub data Decision : Type 0 where
  approval denial : ℤ → String → String → Decision

unfoldable pub decided_by : Decision → ApprovalRecord → ApprovalRecord
unfolding approve deny
decided_by (Decision.approval now who notes) r = approve now who notes r
decided_by (Decision.denial now who notes) r = deny now who notes r

pub decided_by_all : List Decision → ApprovalRecord → ApprovalRecord
unfolding decided_by
decided_by_all [] r = r
decided_by_all (d ∷ ds) r = decided_by_all ds (decided_by d r)

decided_twice :
    (d d' : Decision) (r : ApprovalRecord) → decided_by d' (decided_by d r) ≡ decided_by d' r
unfolding decided_by approve deny
decided_twice (Decision.approval a b c) (Decision.approval x y z) r = refl
decided_twice (Decision.approval a b c) (Decision.denial x y z) r = refl
decided_twice (Decision.denial a b c) (Decision.approval x y z) r = refl
decided_twice (Decision.denial a b c) (Decision.denial x y z) r = refl

-- A record after several decisions is what the last of them alone makes of it: a later decision may
-- reverse an earlier one, and leaves no trace of it.
pub decided_by_all_last :
    (ds : List Decision) (d : Decision) (r : ApprovalRecord)
    → decided_by_all (ds ++ d ∷ []) r ≡ decided_by d r
unfolding decided_by_all
decided_by_all_last [] d r = refl
decided_by_all_last (d' ∷ ds) d r =
    decided_by_all_last ds d (decided_by d' r) ∙ decided_twice d' d r
