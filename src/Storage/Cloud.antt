-- ===== src/Storage/Cloud.antt =====
-- `GCSRepository` of internal/storage/gcs.go: the documents as objects of two buckets.
pub mod Names
pub mod Decoding
pub mod Config
pub mod Reading
pub mod Outbox
pub mod Reservations
pub mod Reads
pub mod Listing
use Prim.Native.String.{String}
use estate_ci.Prelude.{
  ◌≡◌, ◌+◌, ◌-◌, Bool, true, false, not, ◌&&◌, ◌||◌, Option, none, some, List, [], ◌∷◌, ◌++◌, map,
  Text, bytes, Result, ok, err, guard, on_error, ℤ, pos, int_eq, leb, length, take, if◌then◌else◌,
  ◌==◌, text_instance, text_lt, ℕ,
}
use estate_ci.Go.Time.{zero_time}
use estate_ci.Contract.Crypto.{Crypto}
use estate_ci.Contract.Json.{Json, object, no_fields, text_field}
use estate_ci.Contract.Canonical.{write_canonical}
use estate_ci.Contract.Patterns.{is_request_id, is_digest}
use estate_ci.Contract.Models.{
  WorkflowEvidence, OperationRequest, OperationDispatch, OperationDispatchResult, OperationReceipt,
}
use estate_ci.Contract.Snapshot.{EstateHealthSnapshot, verify_snapshot}
use estate_ci.Contract.Evidence.{verify_evidence}
use estate_ci.Contract.Request.{request_json, verify_request_digest}
use estate_ci.Contract.Dispatch.{dispatch_json, verify_dispatch_digest}
use estate_ci.Contract.DispatchResult.{result_json, verify_result_digest}
use estate_ci.Contract.Receipt.{receipt_json, receipt_object, verify_receipt_digest}
use estate_ci.Storage.Repository.{
  StorageError, not_found, failure, Op, Reservation, Repository, validate_reservation,
}
use estate_ci.Storage.Memory.{in_limit, limit_of, sort_receipts}
use estate_ci.Storage.Actions.{return, ◌>>=◌, ◌>>◌}
use estate_ci.Storage.Objects.{Object, ObjectStore, validate_object_address}
use estate_ci.Storage.Cloud.Names.{
  request_object, dispatch_object, result_object, evidence_object, replay_request_object,
  replay_binding_object, replay_approval_object, is_receipt_object, is_receipt_of,
}
use estate_ci.Storage.Cloud.Config.{GcsRepository}
use estate_ci.Storage.Cloud.Reading.{
  sort_snapshots, find_receipt, read_receipts, read_snapshots, first_snapshot,
}
use estate_ci.Storage.Cloud.Decoding.{Decoders, strict_json, checked}

-- The JSON object that is stored under the three keys of a reservation.
unfoldable pub reservation_json : Reservation → Json
reservation_json r = object (
    text_field "request_id" r.request_id (
      text_field "binding_digest" r.binding_digest (
        text_field "approval_id" r.approval_id
          (text_field "nonce" r.nonce (text_field "expires_at" r.expires_at no_fields)))))

-- `payload, _ := contract.CanonicalJSON(...)`
abbrev pub or_nil : Result String Text → Text
or_nil (ok payload) = payload
or_nil (err e) = []

abbrev pub encoded : Json → Result StorageError Text
encoded value = on_error (failure "canonical JSON") (write_canonical value)

module _ {S : Type 0} (c : Crypto) (json : Decoders) (repository : GcsRepository S) where
  open repository use {objects, health_bucket, audit_bucket}

  unfoldable pub put_request : OperationRequest → Op S (Unit {0})
  put_request r = do
    return (
        on_error (failure "operation request is invalid or unsealed")
          (verify_request_digest c zero_time r))
    payload ← return (encoded (request_json r))
    objects.create audit_bucket (request_object r.request_id) payload

  unfoldable pub get_request : Text → Op S OperationRequest
  get_request request_id = do
    return (guard (is_request_id request_id) not_found)
    raw ← objects.get audit_bucket (request_object request_id)
    return (
        checked (failure "stored operation request is invalid") (verify_request_digest c zero_time)
          (strict_json json.request raw))

  unfoldable pub put_dispatch : OperationDispatch → Op S (Unit {0})
  put_dispatch d = do
    return (
        on_error (failure "operation dispatch is invalid or unsealed")
          (verify_dispatch_digest c zero_time d))
    payload ← return (encoded (dispatch_json d))
    objects.create audit_bucket (dispatch_object d.request_id) payload

  unfoldable pub get_dispatch : Text → Op S OperationDispatch
  get_dispatch request_id = do
    return (guard (is_request_id request_id) not_found)
    raw ← objects.get audit_bucket (dispatch_object request_id)
    return (
        checked (failure "stored operation dispatch is invalid")
          (verify_dispatch_digest c zero_time) (strict_json json.dispatch raw))

  unfoldable pub put_dispatch_result : OperationDispatchResult → Op S (Unit {0})
  put_dispatch_result r = do
    return (
        on_error (failure "operation dispatch result is invalid or unsealed")
          (verify_result_digest c zero_time r))
    payload ← return (encoded (result_json r))
    objects.create audit_bucket (result_object r.request_id) payload

  unfoldable pub get_dispatch_result : Text → Op S OperationDispatchResult
  get_dispatch_result request_id = do
    return (guard (is_request_id request_id) not_found)
    raw ← objects.get audit_bucket (result_object request_id)
    return (
        checked (failure "stored operation dispatch result is invalid")
          (verify_result_digest c zero_time) (strict_json json.result raw))

  unfoldable pub reserve_request : Reservation → Op S (Unit {0})
  reserve_request r = do
    return (validate_reservation r)
    let payload = or_nil (write_canonical (reservation_json r))
    objects.create audit_bucket (replay_request_object r.request_id) payload
    objects.create audit_bucket (replay_binding_object r.binding_digest) payload
    objects.create audit_bucket (replay_approval_object r.approval_id) payload

  unfoldable pub get_evidence : Text → Op S WorkflowEvidence
  get_evidence digest = do
    return (guard (is_digest digest) not_found)
    raw ← objects.get audit_bucket (evidence_object digest)
    return (
        checked (failure "stored workflow evidence is invalid") (verify_evidence c zero_time)
          (strict_json json.evidence raw))

  unfoldable pub put_receipt : OperationReceipt → Op S (Unit {0})
  put_receipt r = do
    return (
        on_error (failure "operation receipt is invalid or unsealed")
          (verify_receipt_digest c zero_time r))
    payload ← return (encoded (receipt_json r))
    objects.create audit_bucket (receipt_object r) payload

  -- The receipt's digest verifies, and it names the object.
  unfoldable pub verify_receipt_at : Text → OperationReceipt → Result String (Unit {0})
  verify_receipt_at name r = elim (verify_receipt_digest c zero_time r) [
    | ok u ↦ guard (r.audit_object == name) "another object"
    | err e ↦ err e
  ]

  unfoldable pub get_receipt_by_object : Text → Op S OperationReceipt
  get_receipt_by_object name = do
    return (guard (is_receipt_object name) not_found)
    raw ← objects.get audit_bucket name
    return (
        checked (failure "stored operation receipt is invalid") (verify_receipt_at name)
          (strict_json json.receipt raw))

  unfoldable pub get_receipt : Text → Op S OperationReceipt
  get_receipt receipt_id = do
    found ← objects.list audit_bucket (bytes "audit/operations/") (pos 1000)
    return (find_receipt c json receipt_id found)

  unfoldable pub list_receipts : ℤ → Op S (List OperationReceipt)
  list_receipts limit = do
    found ← objects.list audit_bucket (bytes "audit/operations/") (pos 1000)
    values ← return (read_receipts c json found)
    return (guard (in_limit limit) (failure "receipt list limit is invalid"))
    return (ok (take (limit_of limit) (sort_receipts values)))

  unfoldable pub list_snapshots : ℤ → Op S (List EstateHealthSnapshot)
  list_snapshots limit = do
    found ← objects.list health_bucket (bytes "health/snapshots/") (pos 1000)
    values ← return (read_snapshots c json found)
    return (guard (in_limit limit) (failure "snapshot list limit is invalid"))
    return (ok (take (limit_of limit) (sort_snapshots values)))

  unfoldable pub latest_snapshot : Op S EstateHealthSnapshot
  latest_snapshot = do values ← list_snapshots (pos 100); return (first_snapshot values)

  abbrev pub cloud_repository : Repository S
  cloud_repository = record {
    latest_snapshot = latest_snapshot;
    list_snapshots = list_snapshots;
    get_evidence = get_evidence;
    reserve_request = reserve_request;
    put_request = put_request;
    get_request = get_request;
    put_dispatch = put_dispatch;
    get_dispatch = get_dispatch;
    put_dispatch_result = put_dispatch_result;
    get_dispatch_result = get_dispatch_result;
    put_receipt = put_receipt;
    get_receipt_by_object = get_receipt_by_object;
    get_receipt = get_receipt;
    list_receipts = list_receipts;
  }
