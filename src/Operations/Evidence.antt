-- ===== src/Operations/Evidence.antt =====
-- `validateEvidence` of internal/operations/service.go.
pub mod Approval
use Prim.Native.String.{String}
use estate_ci.Prelude.{
  Bool, true, false, not, ◌&&◌, ◌||◌, List, [], ◌∷◌, Text, Result, ok, err, leb, if◌then◌else◌,
  ◌==◌, text_instance, int_instance, zero_int,
}
use estate_ci.Go.Time.{Time}
use estate_ci.Go.Strings.{equal_fold}
use estate_ci.Auth.Roles.{Role, role_approver}
use estate_ci.Contract.Models.{
  OperationIntent, WorkflowEvidence, operation_refresh_health, operation_cancel_run,
}
use estate_ci.Contract.Evidence.{verify_evidence}
use estate_ci.Operations.Environment.{Service}
use estate_ci.Operations.Exec.{Exec, denied, pure, raise, lift, sense, check, ◌>>=◌, ◌>>◌}

-- The evidence names the same workflow, commit and plan as the intent.
unfoldable pub evidence_matches : OperationIntent → WorkflowEvidence → Bool
evidence_matches intent e =
    e.digest == intent.evidence_digest
    && e.repository == intent.repository
    && e.workflow_id == intent.workflow_id
    && e.protected_main_sha == intent.protected_main_sha
    && e.plan_digest == intent.plan_digest

-- The approval is for this operation, requester and reason.
unfoldable pub approval_matches : Text → OperationIntent → WorkflowEvidence → Bool
approval_matches requester intent e =
    e.approval.operation == intent.operation
    && equal_fold e.approval.requested_by requester
    && e.approval.reason == intent.reason

unfoldable pub run_matches : OperationIntent → WorkflowEvidence → Bool
run_matches intent e =
    if intent.operation == operation_refresh_health
    then intent.workflow_run_id == zero_int
    else e.workflow_run_id == intent.workflow_run_id

unfoldable pub supersession_matches : OperationIntent → WorkflowEvidence → Bool
supersession_matches intent e = not (intent.operation == operation_cancel_run) || e.superseded

module _ {S W : Type 0} (service : Service S W) where
  -- What the loop does with the role of one approver; `next` is the rest of the loop.
  unfoldable pub judge : Result String Role → Exec S W Bool → Exec S W Bool
  judge (err e) next = raise denied
  judge (ok role) next = if leb role_approver role then pure true else next

  -- The loop over the approvers: the first distinct one with the role ends it.
  unfoldable pub any_approver : Text → List Text → Exec S W Bool
  any_approver requester [] = pure false
  any_approver requester (approver ∷ rest) =
      let next = any_approver requester rest in
      if equal_fold approver requester
      then next
      else do role ← sense (service.environment.role_for approver); judge role next

  unfoldable pub validate_evidence :
      Time → Text → OperationIntent → WorkflowEvidence → Exec S W (Unit {0})
  validate_evidence now requester intent e = do
    lift denied (verify_evidence service.crypto now e)
    check (evidence_matches intent e) denied
    check (approval_matches requester intent e) denied
    check (run_matches intent e) denied
    check (supersession_matches intent e) denied
    approved ← any_approver requester e.approval.approvers
    check approved denied
