-- ===== src/Operations/Service/Preserves.antt =====
-- Invariants of the service in internal/operations/service.go: from the calls of the store and of the
-- world, and from the write of the outbox record, to `Create`.
use Prim.Native.String.{String}
use estate_ci.Prelude.{
  ℕ, zero, suc, ◌≡◌, refl, Bool, List, [], ◌∷◌, Text, Result, ok, err, if◌then◌else◌, text_instance,
}
use estate_ci.Go.Time.{Time}
use estate_ci.Go.Strings.{equal_fold}
use estate_ci.Auth.Identity.{Identity}
use estate_ci.Auth.Roles.{Role}
use estate_ci.Contract.Models.{
  OperationIntent, OperationRequest, OperationDispatch, OperationDispatchResult, OperationReceipt,
  WorkflowEvidence,
}
use estate_ci.Storage.Repository.{StorageError, Reservation, not_found, conflict}
use estate_ci.Operations.Catalog.{RepositoryTarget, CatalogError}
use estate_ci.Operations.Environment.{Service, DispatchOutcome}
use estate_ci.Operations.Exec.{pending, internal, Exec, State, lift, attempt, sense, ◌>>=◌}
use estate_ci.Operations.Exec.Keeps.{Keeps, Keeps-bind, Keeps-check, Keeps-lift, keeps_rules}
use estate_ci.Operations.Identifiers.{uuid_text}
use estate_ci.Operations.Service.Sealed.{request_id-dispatch}
use estate_ci.Operations.Evidence.{judge, any_approver, validate_evidence}
use estate_ci.Operations.Outbox.{
  adopt_receipt, settle_receipt, finalize, adopt_result, settle_result, complete,
  after_put_dispatch, prepare, resume_result, resume_dispatch, resume,
}
use estate_ci.Operations.Service.{
  resume_same, after_put_request, after_reserve, intent_expiry, create_new, create_or_resume,
  authorized, create,
}

-- Every call but `Dispatch` and the write of an outbox record keeps `P`.
pub record Respects {S W : Type 0} (service : Service S W) (P : State S W → Type 0) : Type 0 where
  pub get_evidence : (g : Text) → Keeps P (attempt (service.repository.get_evidence g))
  pub reserve : (r : Reservation) → Keeps P (attempt (service.repository.reserve_request r))
  pub put_request : (r : OperationRequest) → Keeps P (attempt (service.repository.put_request r))
  pub get_request : (k : Text) → Keeps P (attempt (service.repository.get_request k))
  pub get_dispatch : (k : Text) → Keeps P (attempt (service.repository.get_dispatch k))
  pub put_result :
      (r : OperationDispatchResult) → Keeps P (attempt (service.repository.put_dispatch_result r))
  pub get_result : (k : Text) → Keeps P (attempt (service.repository.get_dispatch_result k))
  pub put_receipt : (r : OperationReceipt) → Keeps P (attempt (service.repository.put_receipt r))
  pub get_object : (k : Text) → Keeps P (attempt (service.repository.get_receipt_by_object k))
  pub now : Keeps P (sense service.environment.now)
  pub random : Keeps P (sense service.environment.random)
  pub role : (a : Text) → Keeps P (sense (service.environment.role_for a))
  pub prepare_call :
      (t : RepositoryTarget) (r : OperationRequest)
      → Keeps P (sense (service.environment.prepare t r))
  pub recover :
      (t : RepositoryTarget) (r : OperationRequest) (k : Text)
      → Keeps P (sense (service.environment.recover t r k))

module _ {S W : Type 0} (service : Service S W) (P : State S W → Type 0)
    (calls : Respects service P) where
  adopt_receipt-Keeps :
      (r : OperationRequest) (p : OperationReceipt) (q : Result StorageError OperationReceipt)
      → Keeps P (adopt_receipt service r p q)
  unfolding adopt_receipt
  adopt_receipt-Keeps r p (ok a) = search keeps_rules
  adopt_receipt-Keeps r p (err e) = search keeps_rules

  settle_receipt-Keeps :
      (r : OperationRequest) (p : OperationReceipt) (q : Result StorageError (Unit {0}))
      → Keeps P (settle_receipt service r p q)
  unfolding settle_receipt
  settle_receipt-Keeps r p (ok u) = search keeps_rules
  settle_receipt-Keeps r p (err conflict) =
      search (keeps_rules, adopt_receipt-Keeps, calls.get_object)
  settle_receipt-Keeps r p (err e) = search keeps_rules

  finalize-Keeps :
      (r : OperationRequest) (d : OperationDispatch) (q : OperationDispatchResult)
      → Keeps P (finalize service r d q)
  unfolding finalize
  finalize-Keeps r d q = search (keeps_rules, settle_receipt-Keeps, calls.put_receipt) depth 12

  adopt_result-Keeps :
      (q : Result StorageError OperationDispatchResult) → Keeps P (adopt_result service q)
  unfolding adopt_result
  adopt_result-Keeps (ok a) = search keeps_rules
  adopt_result-Keeps (err e) = search keeps_rules

  settle_result-Keeps :
      (id : Text) (r : OperationDispatchResult) (q : Result StorageError (Unit {0}))
      → Keeps P (settle_result service id r q)
  unfolding settle_result
  settle_result-Keeps id r (ok u) = search keeps_rules
  settle_result-Keeps id r (err conflict) =
      search (keeps_rules, adopt_result-Keeps, calls.get_result)
  settle_result-Keeps id r (err e) = search keeps_rules

  pub complete-Keeps :
      (r : OperationRequest) (d : OperationDispatch) (o : DispatchOutcome)
      → Keeps P (complete service r d o)
  unfolding complete
  complete-Keeps r d o = Keeps-bind _ _ (Keeps-check o.final pending) λ _.
      Keeps-bind _ _ calls.now
        λ now. search (keeps_rules, settle_result-Keeps, finalize-Keeps, calls.put_result) depth 8

  resume_result-Keeps :
      (t : RepositoryTarget) (r : OperationRequest) (d : OperationDispatch)
      (q : Result StorageError OperationDispatchResult)
      → Keeps P (resume_result service t r d q)
  unfolding resume_result
  resume_result-Keeps t r d (ok a) = search (keeps_rules, finalize-Keeps)
  resume_result-Keeps t r d (err not_found) = search (keeps_rules, complete-Keeps, calls.recover)
  resume_result-Keeps t r d (err e) = search keeps_rules

  resume_dispatch-Keeps :
      (again : Exec S W OperationReceipt) (t : RepositoryTarget) (r : OperationRequest)
      (q : Result StorageError OperationDispatch)
      → Keeps P again
      → Keeps P (resume_dispatch service again t r q)
  unfolding resume_dispatch
  resume_dispatch-Keeps again t r (ok d) k =
      search (keeps_rules, resume_result-Keeps, calls.get_result) depth 8
  resume_dispatch-Keeps again t r (err not_found) k = k
  resume_dispatch-Keeps again t r (err e) k = search keeps_rules

  judge-Keeps :
      (q : Result String Role) (next : Exec S W Bool)
      → Keeps P next
      → Keeps P (judge service q next)
  unfolding judge
  judge-Keeps (ok role) next k = search keeps_rules
  judge-Keeps (err e) next k = search keeps_rules

  any_approver_step :
      (requester a : Text) (next : Exec S W Bool)
      → Keeps P next
      → Keeps P (
          if equal_fold a requester
          then next
          else (sense (service.environment.role_for a) >>= λ role. judge service role next))
  any_approver_step requester a next k = search (keeps_rules, judge-Keeps, calls.role)

  any_approver-Keeps :
      (requester : Text) (approvers : List Text)
      → Keeps P (any_approver service requester approvers)
  unfolding any_approver
  any_approver-Keeps requester [] = search keeps_rules
  any_approver-Keeps requester (a ∷ rest) =
      any_approver_step requester a _ (any_approver-Keeps requester rest)

  validate_evidence-Keeps :
      (now : Time) (requester : Text) (i : OperationIntent) (e : WorkflowEvidence)
      → Keeps P (validate_evidence service now requester i e)
  unfolding validate_evidence
  validate_evidence-Keeps now requester i e = search (keeps_rules, any_approver-Keeps) depth 16

-- The write of an outbox record, and the dispatch that follows it where it is new.
abbrev pub outbox_write :
    {S W : Type 0} (service : Service S W) (t : RepositoryTarget) (r : OperationRequest)
    (d : OperationDispatch) (o : DispatchOutcome) (again : Exec S W OperationReceipt)
    → Exec S W OperationReceipt
outbox_write service t r d o again =
    attempt (service.repository.put_dispatch d) >>= after_put_dispatch service t r d o again

-- The outbox write for a record of the request keeps `P`.
pub record Dispatches {S W : Type 0} (service : Service S W) (P : State S W → Type 0) : Type 0 where
  pub write :
      (t : RepositoryTarget) (r : OperationRequest) (d : OperationDispatch) (o : DispatchOutcome)
      (again : Exec S W OperationReceipt)
      → d.request_id ≡ r.request_id
      → Keeps P again
      → Keeps P (outbox_write service t r d o again)

module _ {S W : Type 0} (service : Service S W) (P : State S W → Type 0)
    (calls : Respects service P) (writes : Dispatches service P) where
  sealed_write :
      (t : RepositoryTarget) (r : OperationRequest) (o : DispatchOutcome)
      (again : Exec S W OperationReceipt) (q : Result String OperationDispatch)
      → ((d : OperationDispatch) → q ≡ ok d → d.request_id ≡ r.request_id)
      → Keeps P again
      → Keeps P
          (lift (internal "seal operation dispatch") q >>= λ d. outbox_write service t r d o again)
  unfolding lift ◌>>=◌
  sealed_write t r o again (ok d) same k = record {
    at = λ s h. (writes.write t r d o again (same d refl) k).at s h;
  }
  sealed_write t r o again (err e) same k = record { at = λ s h. h }

  prepare-Keeps :
      (again : Exec S W OperationReceipt) (t : RepositoryTarget) (r : OperationRequest)
      → Keeps P again
      → Keeps P (prepare service again t r)
  unfolding prepare
  prepare-Keeps again t r k = Keeps-bind _ _ (calls.prepare_call t r) λ (token, prepared).
      Keeps-bind _ _ calls.random λ random. Keeps-bind _ _ (Keeps-lift _ random) λ value.
        Keeps-bind _ _ calls.now λ now.
          sealed_write t r prepared again _
            (request_id-dispatch service.crypto service.signer r (uuid_text value) token now) k

  resume-Keeps :
      (fuel : ℕ) (t : RepositoryTarget) (r : OperationRequest) → Keeps P (resume service fuel t r)
  unfolding resume
  resume-Keeps zero t r = search keeps_rules
  resume-Keeps (suc fuel) t r = Keeps-bind _ _ (calls.get_dispatch r.request_id) λ found.
      resume_dispatch-Keeps service P calls _ t r found
        (prepare-Keeps _ t r (resume-Keeps fuel t r))

  resume_same-Keeps :
      (fuel : ℕ) (t : RepositoryTarget) (i : OperationIntent) (email : Text)
      (q : Result StorageError OperationRequest)
      → Keeps P (resume_same service fuel t i email q)
  unfolding resume_same
  resume_same-Keeps fuel t i email (ok r) = search (keeps_rules, resume-Keeps)
  resume_same-Keeps fuel t i email (err e) = search keeps_rules

  after_put_request-Keeps :
      (fuel : ℕ) (t : RepositoryTarget) (i : OperationIntent) (email : Text) (r : OperationRequest)
      (q : Result StorageError (Unit {0}))
      → Keeps P (after_put_request service fuel t i email r q)
  unfolding after_put_request
  after_put_request-Keeps fuel t i email r (ok u) = search (prepare-Keeps, resume-Keeps)
  after_put_request-Keeps fuel t i email r (err conflict) =
      search (keeps_rules, resume_same-Keeps, calls.get_request)
  after_put_request-Keeps fuel t i email r (err e) = search keeps_rules

  after_reserve-Keeps :
      (fuel : ℕ) (t : RepositoryTarget) (i : OperationIntent) (email : Text) (r : OperationRequest)
      (q : Result StorageError (Unit {0}))
      → Keeps P (after_reserve service fuel t i email r q)
  unfolding after_reserve
  after_reserve-Keeps fuel t i email r (ok u) =
      search (keeps_rules, after_put_request-Keeps, calls.put_request)
  after_reserve-Keeps fuel t i email r (err conflict) =
      search (keeps_rules, resume_same-Keeps, calls.get_request)
  after_reserve-Keeps fuel t i email r (err e) = search keeps_rules

  intent_expiry-Keeps : (now : Time) (i : OperationIntent) → Keeps P (intent_expiry service now i)
  unfolding intent_expiry
  intent_expiry-Keeps now i = search keeps_rules depth 8

  create_new-Keeps :
      (fuel : ℕ) (t : RepositoryTarget) (identity : Identity) (i : OperationIntent)
      → Keeps P (create_new service fuel t identity i)
  unfolding create_new
  create_new-Keeps fuel t identity i = Keeps-bind _ _ calls.now λ clock.
      Keeps-bind _ _ (intent_expiry-Keeps _ i) λ expires_at.
        Keeps-bind _ _ (calls.get_evidence i.evidence_digest) λ found.
          Keeps-bind _ _ (Keeps-lift _ found) λ evidence.
            Keeps-bind _ _ (validate_evidence-Keeps service P calls _ identity.email i evidence)
              λ u.
                Keeps-bind _ _ calls.random
                  λ random. search (keeps_rules, after_reserve-Keeps, calls.reserve) depth 10

  create_or_resume-Keeps :
      (fuel : ℕ) (t : RepositoryTarget) (identity : Identity) (i : OperationIntent)
      (q : Result StorageError OperationRequest)
      → Keeps P (create_or_resume service fuel t identity i q)
  unfolding create_or_resume
  create_or_resume-Keeps fuel t identity i (ok r) = search (keeps_rules, resume-Keeps)
  create_or_resume-Keeps fuel t identity i (err not_found) = create_new-Keeps fuel t identity i
  create_or_resume-Keeps fuel t identity i (err e) = search keeps_rules

  authorized-Keeps :
      (fuel : ℕ) (identity : Identity) (i : OperationIntent)
      (q : Result CatalogError RepositoryTarget)
      → Keeps P (authorized service fuel identity i q)
  authorized-Keeps fuel identity i (ok t) =
      search (keeps_rules, create_or_resume-Keeps, calls.get_request)
  authorized-Keeps fuel identity i (err e) = search keeps_rules

  -- Every call of `Create` keeps the invariant, whatever it returns.
  pub create-Keeps :
      (fuel : ℕ) (identity : Identity) (role : Role) (i : OperationIntent)
      → Keeps P (create service fuel identity role i)
  unfolding create
  create-Keeps fuel identity role i = search (keeps_rules, authorized-Keeps)
