-- ===== src/Operations/Service/Settled.antt =====
-- The parts of internal/operations/service.go that call neither `prepare` nor `resume`.
use Prim.Native.String.{String}
use estate_ci.Prelude.{
  ◌≢◌, refl, Bool, List, [], ◌∷◌, Text, Result, ok, err, if◌then◌else◌, text_instance,
}
use estate_ci.Go.Time.{Time}
use estate_ci.Go.Strings.{equal_fold}
use estate_ci.Auth.Roles.{Role}
use estate_ci.Contract.Models.{
  OperationIntent, OperationRequest, OperationDispatch, OperationDispatchResult, OperationReceipt,
  WorkflowEvidence,
}
use estate_ci.Storage.Repository.{StorageError, not_found, conflict}
use estate_ci.Operations.Catalog.{RepositoryTarget}
use estate_ci.Operations.Environment.{Service, DispatchOutcome}
use estate_ci.Operations.Exec.{Exec, sense, ◌>>=◌}
use estate_ci.Operations.Exec.Settles.{Settles, settles_rules}
use estate_ci.Operations.Evidence.{judge, any_approver, validate_evidence}
use estate_ci.Operations.Outbox.{
  adopt_receipt, settle_receipt, finalize, adopt_result, settle_result, complete,
  dispatch_and_complete, resume_result, resume_dispatch,
}

module _ {S W : Type 0} (service : Service S W) where
  adopt_receipt-Settles :
      (r : OperationRequest) (p : OperationReceipt) (q : Result StorageError OperationReceipt)
      → Settles (adopt_receipt service r p q)
  unfolding adopt_receipt
  adopt_receipt-Settles r p (ok a) = search settles_rules
  adopt_receipt-Settles r p (err e) = search settles_rules

  settle_receipt-Settles :
      (r : OperationRequest) (p : OperationReceipt) (q : Result StorageError (Unit {0}))
      → Settles (settle_receipt service r p q)
  unfolding settle_receipt
  settle_receipt-Settles r p (ok u) = search settles_rules
  settle_receipt-Settles r p (err conflict) = search (settles_rules, adopt_receipt-Settles)
  settle_receipt-Settles r p (err e) = search settles_rules

  finalize-Settles :
      (r : OperationRequest) (d : OperationDispatch) (q : OperationDispatchResult)
      → Settles (finalize service r d q)
  unfolding finalize
  finalize-Settles r d q = search (settles_rules, settle_receipt-Settles) depth 12

  adopt_result-Settles :
      (q : Result StorageError OperationDispatchResult) → Settles (adopt_result service q)
  unfolding adopt_result
  adopt_result-Settles (ok a) = search settles_rules
  adopt_result-Settles (err e) = search settles_rules

  settle_result-Settles :
      (id : Text) (r : OperationDispatchResult) (q : Result StorageError (Unit {0}))
      → Settles (settle_result service id r q)
  unfolding settle_result
  settle_result-Settles id r (ok u) = search settles_rules
  settle_result-Settles id r (err conflict) = search (settles_rules, adopt_result-Settles)
  settle_result-Settles id r (err e) = search settles_rules

  complete-Settles :
      (r : OperationRequest) (d : OperationDispatch) (o : DispatchOutcome)
      → Settles (complete service r d o)
  unfolding complete
  complete-Settles r d o = search (settles_rules, settle_result-Settles, finalize-Settles) depth 14

  pub dispatch-Settles :
      (t : RepositoryTarget) (r : OperationRequest) (d : OperationDispatch) (o : DispatchOutcome)
      → Settles (dispatch_and_complete service t r d o)
  unfolding dispatch_and_complete
  dispatch-Settles t r d o = search (settles_rules, complete-Settles)

  resume_result-Settles :
      (t : RepositoryTarget) (r : OperationRequest) (d : OperationDispatch)
      (q : Result StorageError OperationDispatchResult)
      → Settles (resume_result service t r d q)
  unfolding resume_result
  resume_result-Settles t r d (ok a) = search (settles_rules, finalize-Settles)
  resume_result-Settles t r d (err not_found) = search (settles_rules, complete-Settles)
  resume_result-Settles t r d (err e) = search settles_rules

  -- With an outbox record, `resume` does not prepare again.
  pub found-Settles :
      (again : Exec S W OperationReceipt) (t : RepositoryTarget) (r : OperationRequest)
      (q : Result StorageError OperationDispatch)
      → q ≢ err not_found
      → Settles (resume_dispatch service again t r q)
  unfolding resume_dispatch
  found-Settles again t r (ok d) there = search (settles_rules, resume_result-Settles) depth 8
  found-Settles again t r (err not_found) there = absurd (there refl)
  found-Settles again t r (err e) there = search settles_rules

  pub resume_dispatch-Settles :
      (again : Exec S W OperationReceipt) (t : RepositoryTarget) (r : OperationRequest)
      (q : Result StorageError OperationDispatch)
      → Settles again
      → Settles (resume_dispatch service again t r q)
  unfolding resume_dispatch
  resume_dispatch-Settles again t r (ok d) k = search (settles_rules, resume_result-Settles) depth 8
  resume_dispatch-Settles again t r (err not_found) k = k
  resume_dispatch-Settles again t r (err e) k = search settles_rules

  judge-Settles :
      (q : Result String Role) (next : Exec S W Bool)
      → Settles next
      → Settles (judge service q next)
  unfolding judge
  judge-Settles (ok role) next k = search settles_rules
  judge-Settles (err e) next k = search settles_rules

  any_approver_step :
      (requester a : Text) (next : Exec S W Bool)
      → Settles next
      → Settles (
          if equal_fold a requester
          then next
          else (sense (service.environment.role_for a) >>= λ role. judge service role next))
  any_approver_step requester a next k = search (settles_rules, judge-Settles)

  any_approver-Settles :
      (requester : Text) (approvers : List Text)
      → Settles (any_approver service requester approvers)
  unfolding any_approver
  any_approver-Settles requester [] = search settles_rules
  any_approver-Settles requester (a ∷ rest) =
      any_approver_step requester a _ (any_approver-Settles requester rest)

  pub validate_evidence-Settles :
      (now : Time) (requester : Text) (i : OperationIntent) (e : WorkflowEvidence)
      → Settles (validate_evidence service now requester i e)
  unfolding validate_evidence
  validate_evidence-Settles now requester i e =
      search (settles_rules, any_approver-Settles) depth 16
