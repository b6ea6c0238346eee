-- ===== src/Operations/Service.antt =====
-- `Create` of internal/operations/service.go: a request is checked, reserved, stored and handed to
-- the outbox; a request that is stored already is resumed.
pub mod Laws
pub mod Sealed
pub mod Preserves
pub mod Once
pub mod Fuel
pub mod Duplicates
pub mod Accepted
pub mod Approved
pub mod Retry
pub mod Settled
pub mod Returns
pub mod MemoryOutbox
pub mod CloudOutbox
use Prim.Native.String.{String}
use estate_ci.Prelude.{
  ℕ, zero, suc, ◌+◌, ◌*◌, Bool, true, false, not, ◌&&◌, ◌||◌, Option, none, some, List, [], ◌∷◌,
  Text, bytes, Result, ok, err, leb, ltb, if◌then◌else◌, ◌==◌, text_instance, int_instance, is_ok,
  require,
}
use estate_ci.Go.Time.{Time, zero_time, minute, parse_time, format_time, truncate_second}
use estate_ci.Go.Strings.{to_lower, equal_fold}
use estate_ci.Auth.Identity.{Identity}
use estate_ci.Auth.Roles.{Role, role_operator, role_admin}
use estate_ci.Contract.Json.{Json, object, no_fields, text_field, int_field}
use estate_ci.Contract.Models.{
  OperationIntent, OperationRequest, OperationDispatch, OperationDispatchResult, OperationReceipt,
  WorkflowEvidence, allowed_operation, empty_signature,
}
use estate_ci.Contract.Patterns.{is_request_id}
use estate_ci.Contract.Crypto.{digest_of}
use estate_ci.Contract.Request.{request_schema_version, seal_request, verify_request}
use estate_ci.Contract.Dispatch.{seal_dispatch, verify_dispatch}
use estate_ci.Contract.DispatchResult.{accepted, rejected, seal_result, verify_result}
use estate_ci.Contract.Receipt.{
  receipt_schema_version, receipt_object, seal_receipt, verify_receipt,
}
use estate_ci.Storage.Repository.{StorageError, not_found, conflict, failure, Reservation}
use estate_ci.Operations.Catalog.{
  CatalogError, RepositoryTarget, authorize, not_catalogued, disabled, other,
}
use estate_ci.Operations.Identifiers.{uuid_text, nonce_text}
use estate_ci.Operations.Environment.{Service, DispatchOutcome}
use estate_ci.Operations.Exec.{
  Failure, Exec, denied, invalid, replay, unready, pending, unready_receipt, internal, stuck, pure,
  raise, lift, attempt, sense, check, ◌>>=◌, ◌>>◌,
}
use estate_ci.Operations.Exec
use estate_ci.Operations.Evidence.{validate_evidence}
use estate_ci.Operations.Documents.{
  request_matches_intent, binding_json, request_of, dispatch_of, result_of, receipt_of,
  result_matches,
}
use estate_ci.Operations.Outbox.{
  trusted_request, trusted_dispatch, trusted_result, trusted_receipt, adopt_receipt, settle_receipt,
  finalize, adopt_result, settle_result, complete, dispatch_and_complete, after_put_dispatch,
  prepare, resume_result, resume_dispatch, resume,
}

abbrev pub intent_schema_version : Text
intent_schema_version = bytes "estate.operation-intent/v1"

abbrev pub catalog_failure : CatalogError → Failure
catalog_failure not_catalogued = Failure.not_catalogued
catalog_failure disabled = Failure.disabled
catalog_failure (other message) = unready

module _ {S W : Type 0} (service : Service S W) where
  open service use {repository, environment, signer, crypto}

  -- A request that another call has stored is resumed if it is the same one.
  unfoldable pub resume_same :
      ℕ
      → RepositoryTarget
      → OperationIntent
      → Text
      → Result StorageError OperationRequest
      → Exec S W OperationReceipt
  resume_same fuel target intent email (err e) = raise replay
  resume_same fuel target intent email (ok existing) =
      if trusted_request service existing && request_matches_intent existing intent email
      then resume service fuel target existing
      else raise replay

  unfoldable pub after_put_request :
      ℕ
      → RepositoryTarget
      → OperationIntent
      → Text
      → OperationRequest
      → Result StorageError (Unit {0})
      → Exec S W OperationReceipt
  after_put_request fuel target intent email request (ok u) =
      prepare service (resume service fuel target request) target request
  after_put_request fuel target intent email request (err conflict) = do
    found ← attempt (repository.get_request request.request_id)
    resume_same fuel target intent email found
  after_put_request fuel target intent email request (err e) =
      raise (internal "persist signed operation request")

  unfoldable pub after_reserve :
      ℕ
      → RepositoryTarget
      → OperationIntent
      → Text
      → OperationRequest
      → Result StorageError (Unit {0})
      → Exec S W OperationReceipt
  after_reserve fuel target intent email request (ok u) = do
    put ← attempt (repository.put_request request)
    after_put_request fuel target intent email request put
  after_reserve fuel target intent email request (err conflict) = do
    found ← attempt (repository.get_request request.request_id)
    resume_same fuel target intent email found
  after_reserve fuel target intent email request (err e) =
      raise (internal "reserve operation replay key")

  -- The expiry of an intent lies in the ten minutes from `now` on.
  unfoldable pub intent_expiry : Time → OperationIntent → Exec S W Time
  intent_expiry now intent = do
    expires_at ←
        lift {E = String} invalid (require (parse_time intent.expires_at) "expiry is invalid")
    check (ltb now expires_at && leb expires_at (now + 10 * minute)) invalid
    pure expires_at

  -- The part of `Create` for a request that is not stored.
  unfoldable pub create_new :
      ℕ → RepositoryTarget → Identity → OperationIntent → Exec S W OperationReceipt
  create_new fuel target identity intent = do
    clock ← sense environment.now
    let now = truncate_second clock
    expires_at ← intent_expiry now intent
    found ← attempt (repository.get_evidence intent.evidence_digest)
    evidence ← lift invalid found
    validate_evidence service now identity.email intent evidence
    random ← sense environment.random
    value ← lift (internal "generate request nonce") random
    request ← lift invalid (
        seal_request crypto signer
          (request_of intent identity.email now expires_at (nonce_text value)))
    binding ←
        lift (internal "derive operation idempotency binding")
          (digest_of crypto (binding_json request))
    reserved ← attempt (
        repository.reserve_request (record {
          request_id = request.request_id;
          binding_digest = binding;
          approval_id = evidence.approval.approval_id;
          nonce = request.nonce;
          expires_at = request.expires_at;
        }))
    after_reserve fuel target intent identity.email request reserved

  unfoldable pub create_or_resume :
      ℕ
      → RepositoryTarget
      → Identity
      → OperationIntent
      → Result StorageError OperationRequest
      → Exec S W OperationReceipt
  create_or_resume fuel target identity intent (ok existing) = do
    check (trusted_request service existing) (internal "verify existing operation request")
    check (request_matches_intent existing intent identity.email) replay
    resume service fuel target existing
  create_or_resume fuel target identity intent (err not_found) =
      create_new fuel target identity intent
  create_or_resume fuel target identity intent (err e) =
      raise (internal "read existing operation request")

  abbrev pub authorized :
      ℕ
      → Identity
      → OperationIntent
      → Result CatalogError RepositoryTarget
      → Exec S W OperationReceipt
  authorized fuel identity intent (err e) = raise (catalog_failure e)
  authorized fuel identity intent (ok target) = do
    found ← attempt (repository.get_request intent.request_id)
    create_or_resume fuel target identity intent found

  unfoldable pub create : ℕ → Identity → Role → OperationIntent → Exec S W OperationReceipt
  create fuel identity caller_role intent = do
    check (leb role_operator caller_role && leb caller_role role_admin) denied
    check
        (intent.schema_version == intent_schema_version
          && is_request_id intent.request_id
          && allowed_operation intent.operation)
        invalid
    authorized fuel identity intent (authorize service.catalog intent)
