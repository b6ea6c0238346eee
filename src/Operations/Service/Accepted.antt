-- ===== src/Operations/Service/Accepted.antt =====
-- The receipts that `Create` of internal/operations/service.go returns.
use estate_ci.Prelude.{
  ℕ, zero, suc, ◌≡◌, refl, Bool, true, false, Text, Result, ok, err, if◌then◌else◌, ◌==◌,
  text_instance, text_eq_iff, ok-inj, sym, ap, ◌∙◌,
}
use estate_ci.Auth.Identity.{Identity}
use estate_ci.Auth.Roles.{Role}
use estate_ci.Contract.Models.{
  OperationIntent, OperationRequest, OperationDispatch, OperationDispatchResult, OperationReceipt,
}
use estate_ci.Contract.DispatchResult.{accepted}
use estate_ci.Storage.Repository.{StorageError, not_found, conflict}
use estate_ci.Operations.Catalog.{RepositoryTarget, CatalogError}
use estate_ci.Operations.Environment.{Service, DispatchOutcome}
use estate_ci.Operations.Exec.{Exec, State, pure, raise, unready_receipt}
use estate_ci.Operations.Exec.Ensures.{Ensures, Ensures-raise, Ensures-bind, Ensures-if}
use estate_ci.Operations.Outbox.{
  finalize, complete, dispatch_and_complete, after_put_dispatch, prepare, resume_result,
  resume_dispatch, resume,
}
use estate_ci.Operations.Service.{
  resume_same, after_put_request, after_reserve, create_new, create_or_resume, authorized, create,
}

record IsAccepted (r : OperationReceipt) : Type 0 where
  status : r.status ≡ accepted

ruleset ensures_rules = (Ensures-raise, Ensures-bind, Ensures-if)

module _ {S W : Type 0} (service : Service S W) where
  -- The end of `finalize`.
  judged :
      (r : OperationReceipt) (b : Bool)
      → (r.status == accepted) ≡ b
      → Ensures {S = S} {W = W} IsAccepted (if b then pure r else raise (unready_receipt r))
  unfolding pure
  judged r true e = record {
    at = λ s a h. record {
      status =
          ap (λ (x : OperationReceipt). x.status) (sym (ok-inj _ refl h))
          ∙ (text_eq_iff r.status accepted).0 e;
    };
  }
  judged r false e = Ensures-raise (unready_receipt r)

  finalize-IsAccepted :
      (r : OperationRequest) (d : OperationDispatch) (q : OperationDispatchResult)
      → Ensures IsAccepted (finalize service r d q)
  unfolding finalize
  finalize-IsAccepted r d q = Ensures-bind _ _ λ u. Ensures-bind _ _ λ receipt.
      Ensures-bind _ _ λ put. Ensures-bind _ _ λ final. judged final (final.status == accepted) refl

  complete-IsAccepted :
      (r : OperationRequest) (d : OperationDispatch) (o : DispatchOutcome)
      → Ensures IsAccepted (complete service r d o)
  unfolding complete
  complete-IsAccepted r d o = search (ensures_rules, finalize-IsAccepted) depth 14

  dispatched :
      (t : RepositoryTarget) (r : OperationRequest) (d : OperationDispatch) (o : DispatchOutcome)
      → Ensures IsAccepted (dispatch_and_complete service t r d o)
  unfolding dispatch_and_complete
  dispatched t r d o = search (ensures_rules, complete-IsAccepted)

  written :
      (t : RepositoryTarget) (r : OperationRequest) (d : OperationDispatch) (o : DispatchOutcome)
      (again : Exec S W OperationReceipt) (q : Result StorageError (Unit {0}))
      → Ensures IsAccepted again
      → Ensures IsAccepted (after_put_dispatch service t r d o again q)
  unfolding after_put_dispatch
  written t r d o again (ok u) k = dispatched t r d o
  written t r d o again (err conflict) k = k
  written t r d o again (err e) k = search ensures_rules

  prepared :
      (again : Exec S W OperationReceipt) (t : RepositoryTarget) (r : OperationRequest)
      → Ensures IsAccepted again
      → Ensures IsAccepted (prepare service again t r)
  unfolding prepare
  prepared again t r k = search (ensures_rules, written) depth 14

  resumed_result :
      (t : RepositoryTarget) (r : OperationRequest) (d : OperationDispatch)
      (q : Result StorageError OperationDispatchResult)
      → Ensures IsAccepted (resume_result service t r d q)
  unfolding resume_result
  resumed_result t r d (ok a) = search (ensures_rules, finalize-IsAccepted)
  resumed_result t r d (err not_found) = search (ensures_rules, complete-IsAccepted)
  resumed_result t r d (err e) = search ensures_rules

  resumed_dispatch :
      (again : Exec S W OperationReceipt) (t : RepositoryTarget) (r : OperationRequest)
      (q : Result StorageError OperationDispatch)
      → Ensures IsAccepted again
      → Ensures IsAccepted (resume_dispatch service again t r q)
  unfolding resume_dispatch
  resumed_dispatch again t r (ok d) k = search (ensures_rules, resumed_result) depth 8
  resumed_dispatch again t r (err not_found) k = k
  resumed_dispatch again t r (err e) k = search ensures_rules

  resumed :
      (fuel : ℕ) (t : RepositoryTarget) (r : OperationRequest)
      → Ensures IsAccepted (resume service fuel t r)
  unfolding resume
  resumed zero t r = search ensures_rules
  resumed (suc fuel) t r = Ensures-bind _ _ λ found.
      resumed_dispatch _ t r found (prepared (resume service fuel t r) t r (resumed fuel t r))

  same :
      (fuel : ℕ) (t : RepositoryTarget) (i : OperationIntent) (email : Text)
      (q : Result StorageError OperationRequest)
      → Ensures IsAccepted (resume_same service fuel t i email q)
  unfolding resume_same
  same fuel t i email (ok r) = search (ensures_rules, resumed)
  same fuel t i email (err e) = search ensures_rules

  stored :
      (fuel : ℕ) (t : RepositoryTarget) (i : OperationIntent) (email : Text) (r : OperationRequest)
      (q : Result StorageError (Unit {0}))
      → Ensures IsAccepted (after_put_request service fuel t i email r q)
  unfolding after_put_request
  stored fuel t i email r (ok u) = prepared (resume service fuel t r) t r (resumed fuel t r)
  stored fuel t i email r (err conflict) = search (ensures_rules, same)
  stored fuel t i email r (err e) = search ensures_rules

  reserved :
      (fuel : ℕ) (t : RepositoryTarget) (i : OperationIntent) (email : Text) (r : OperationRequest)
      (q : Result StorageError (Unit {0}))
      → Ensures IsAccepted (after_reserve service fuel t i email r q)
  unfolding after_reserve
  reserved fuel t i email r (ok u) = search (ensures_rules, stored)
  reserved fuel t i email r (err conflict) = search (ensures_rules, same)
  reserved fuel t i email r (err e) = search ensures_rules

  created :
      (fuel : ℕ) (t : RepositoryTarget) (identity : Identity) (i : OperationIntent)
      → Ensures IsAccepted (create_new service fuel t identity i)
  unfolding create_new
  created fuel t identity i = search (ensures_rules, reserved) depth 24

  continued :
      (fuel : ℕ) (t : RepositoryTarget) (identity : Identity) (i : OperationIntent)
      (q : Result StorageError OperationRequest)
      → Ensures IsAccepted (create_or_resume service fuel t identity i q)
  unfolding create_or_resume
  continued fuel t identity i (ok r) = search (ensures_rules, resumed) depth 8
  continued fuel t identity i (err not_found) = created fuel t identity i
  continued fuel t identity i (err e) = search ensures_rules

  targeted :
      (fuel : ℕ) (identity : Identity) (i : OperationIntent)
      (q : Result CatalogError RepositoryTarget)
      → Ensures IsAccepted (authorized service fuel identity i q)
  targeted fuel identity i (ok t) = search (ensures_rules, continued)
  targeted fuel identity i (err e) = search ensures_rules

  answered :
      (fuel : ℕ) (identity : Identity) (role : Role) (i : OperationIntent)
      → Ensures IsAccepted (create service fuel identity role i)
  unfolding create
  answered fuel identity role i = search (ensures_rules, targeted)

  -- A receipt that `Create` returns without an error is an accepted one: a rejection, and an outcome
  -- that is not final, are errors on every path.
  pub create_accepted :
      (fuel : ℕ) (identity : Identity) (role : Role) (i : OperationIntent) (s : State S W)
      (receipt : OperationReceipt)
      → (create service fuel identity role i s).0 ≡ ok receipt
      → receipt.status ≡ accepted
  create_accepted fuel identity role i s receipt h =
      ((answered fuel identity role i).at s receipt h).status
