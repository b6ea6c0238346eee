-- ===== src/Operations/Outbox.antt =====
-- The second half of internal/operations/service.go: from a stored request to its receipt. The
-- outbox record is written before the provider is called; `resume` goes on from what is stored.
use estate_ci.Prelude.{
  ℕ, zero, suc, Bool, ◌&&◌, Text, Result, ok, err, if◌then◌else◌, ◌==◌, text_instance, int_instance,
  is_ok,
}
use estate_ci.Go.Time.{zero_time}
use estate_ci.Contract.Models.{
  OperationRequest, OperationDispatch, OperationDispatchResult, OperationReceipt,
}
use estate_ci.Contract.Request.{verify_request}
use estate_ci.Contract.Dispatch.{seal_dispatch, verify_dispatch}
use estate_ci.Contract.DispatchResult.{accepted, seal_result, verify_result}
use estate_ci.Contract.Receipt.{seal_receipt, verify_receipt}
use estate_ci.Storage.Repository.{StorageError, not_found, conflict}
use estate_ci.Operations.Catalog.{RepositoryTarget}
use estate_ci.Operations.Identifiers.{uuid_text}
use estate_ci.Operations.Environment.{Service, DispatchOutcome}
use estate_ci.Operations.Exec.{
  Exec, pending, unready_receipt, internal, stuck, pure, raise, lift, attempt, sense, check, ◌>>=◌,
  ◌>>◌,
}
use estate_ci.Operations.Documents.{dispatch_of, result_of, receipt_of, result_matches}

module _ {S W : Type 0} (service : Service S W) where
  open service use {repository, environment, signer, crypto}

  -- `VerifySignature(time.Time{}, …) == nil` of a stored document, under the service's own key.
  unfoldable pub trusted_request : OperationRequest → Bool
  trusted_request r = is_ok (verify_request crypto zero_time signer.key_id signer.public_key r)

  unfoldable pub trusted_dispatch : OperationDispatch → Bool
  trusted_dispatch d = is_ok (verify_dispatch crypto zero_time signer.key_id signer.public_key d)

  unfoldable pub trusted_result : OperationDispatchResult → Bool
  trusted_result r = is_ok (verify_result crypto zero_time signer.key_id signer.public_key r)

  unfoldable pub trusted_receipt : OperationReceipt → Bool
  trusted_receipt r = is_ok (verify_receipt crypto zero_time signer.key_id signer.public_key r)

  -- The receipt that stands under the audit object after a conflict.
  unfoldable pub adopt_receipt :
      OperationRequest
      → OperationReceipt
      → Result StorageError OperationReceipt
      → Exec S W OperationReceipt
  adopt_receipt request receipt (err e) = raise pending
  adopt_receipt request receipt (ok stored) = do
    check
        (trusted_receipt stored
          && stored.request_digest == request.digest
          && stored.receipt_id == receipt.receipt_id)
        pending
    pure stored

  unfoldable pub settle_receipt :
      OperationRequest
      → OperationReceipt
      → Result StorageError (Unit {0})
      → Exec S W OperationReceipt
  settle_receipt request receipt (ok u) = pure receipt
  settle_receipt request receipt (err conflict) = do
    found ← attempt (repository.get_receipt_by_object receipt.audit_object)
    adopt_receipt request receipt found
  settle_receipt request receipt (err e) = raise pending

  unfoldable pub finalize :
      OperationRequest → OperationDispatch → OperationDispatchResult → Exec S W OperationReceipt
  finalize request dispatch result = do
    check (result_matches request dispatch result)
        (internal "durable dispatch result does not match its request")
    receipt ← lift pending (seal_receipt crypto signer (receipt_of request result))
    put ← attempt (repository.put_receipt receipt)
    final ← settle_receipt request receipt put
    if final.status == accepted then pure final else raise (unready_receipt final)

  -- The result that was stored first, after a conflict.
  unfoldable pub adopt_result :
      Result StorageError OperationDispatchResult → Exec S W OperationDispatchResult
  adopt_result (err e) = raise pending
  adopt_result (ok stored) = do check (trusted_result stored) pending; pure stored

  unfoldable pub settle_result :
      Text
      → OperationDispatchResult
      → Result StorageError (Unit {0})
      → Exec S W OperationDispatchResult
  settle_result request_id result (ok u) = pure result
  settle_result request_id result (err conflict) = do
    found ← attempt (repository.get_dispatch_result request_id)
    adopt_result found
  settle_result request_id result (err e) = raise pending

  unfoldable pub complete :
      OperationRequest → OperationDispatch → DispatchOutcome → Exec S W OperationReceipt
  complete request dispatch outcome = do
    check outcome.final pending
    now ← sense environment.now
    result ← lift pending (seal_result crypto signer (result_of request dispatch outcome now))
    put ← attempt (repository.put_dispatch_result result)
    final ← settle_result request.request_id result put
    finalize request dispatch final

  -- After the outbox record is written: the only call of `Dispatch`.
  unfoldable pub dispatch_and_complete :
      RepositoryTarget
      → OperationRequest
      → OperationDispatch
      → DispatchOutcome
      → Exec S W OperationReceipt
  dispatch_and_complete target request dispatch prepared =
      if prepared.final then complete request dispatch prepared else do
        outcome ← sense (environment.dispatch target request dispatch.recovery_token)
        complete request dispatch outcome

  unfoldable pub after_put_dispatch :
      RepositoryTarget
      → OperationRequest
      → OperationDispatch
      → DispatchOutcome
      → Exec S W OperationReceipt
      → Result StorageError (Unit {0})
      → Exec S W OperationReceipt
  after_put_dispatch target request dispatch prepared resume (ok u) =
      dispatch_and_complete target request dispatch prepared
  after_put_dispatch target request dispatch prepared resume (err conflict) = resume
  after_put_dispatch target request dispatch prepared resume (err e) =
      raise (internal "persist operation dispatch before provider call")

  -- `resume` is the call that a conflict on the outbox record makes.
  unfoldable pub prepare :
      Exec S W OperationReceipt → RepositoryTarget → OperationRequest → Exec S W OperationReceipt
  prepare resume target request = do
    (token, prepared) ← sense (environment.prepare target request)
    random ← sense environment.random
    value ← lift (internal "generate receipt identity") random
    now ← sense environment.now
    dispatch ←
        lift (internal "seal operation dispatch")
          (seal_dispatch crypto signer (dispatch_of request (uuid_text value) token now))
    put ← attempt (repository.put_dispatch dispatch)
    after_put_dispatch target request dispatch prepared resume put

  unfoldable pub resume_result :
      RepositoryTarget
      → OperationRequest
      → OperationDispatch
      → Result StorageError OperationDispatchResult
      → Exec S W OperationReceipt
  resume_result target request dispatch (ok result) = do
    check (trusted_result result) (internal "verify durable operation dispatch result")
    finalize request dispatch result
  resume_result target request dispatch (err not_found) = do
    outcome ← sense (environment.recover target request dispatch.recovery_token)
    complete request dispatch outcome
  resume_result target request dispatch (err e) =
      raise (internal "read durable operation dispatch result")

  unfoldable pub resume_dispatch :
      Exec S W OperationReceipt
      → RepositoryTarget
      → OperationRequest
      → Result StorageError OperationDispatch
      → Exec S W OperationReceipt
  resume_dispatch again target request (err not_found) = again
  resume_dispatch again target request (ok dispatch) = do
    check (dispatch.request_digest == request.digest && trusted_dispatch dispatch)
        (internal "read durable operation dispatch")
    result ← attempt (repository.get_dispatch_result request.request_id)
    resume_result target request dispatch result
  resume_dispatch again target request (err e) = raise (internal "read durable operation dispatch")

  -- `prepare` and `resume` call one another; the fuel counts the calls of `resume`.
  unfoldable pub resume : ℕ → RepositoryTarget → OperationRequest → Exec S W OperationReceipt
  resume zero target request = raise stuck
  resume (suc fuel) target request = do
    found ← attempt (repository.get_dispatch request.request_id)
    resume_dispatch (prepare (resume fuel target request) target request) target request found
