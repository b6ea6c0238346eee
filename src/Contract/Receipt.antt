-- ===== src/Contract/Receipt.antt =====
-- `OperationReceipt` of internal/contract/models.go: the public record of an operation.
use Prim.Native.String.{String}
use estate_ci.Prelude.{
  refl, ◌&&◌, ◌||◌, Option, none, some, Text, bytes, Result, ◌>>◌, guard, ◌==◌, text_instance,
  is_some, [], ◌∷◌, ◌++◌,
}
use estate_ci.Go.Time.{Time, parse_time, format_date}
use estate_ci.Contract.Json.{Json, object, text_field, signature_field}
use estate_ci.Contract.Models.{OperationReceipt, allowed_operation}
use estate_ci.Contract.Patterns.{is_request_id, is_repository, is_digest, is_reason_code}
use estate_ci.Contract.Document.{Document, IsDocument}
use estate_ci.Contract.Document
use estate_ci.Contract.Crypto.{Crypto, Signer}
use estate_ci.Contract.DispatchResult.{accepted, rejected, valid_reference}

abbrev pub receipt_schema_version : Text
receipt_schema_version = bytes "estate.operation-receipt/v1"

-- `ReceiptObject` of internal/storage/repository.go, which `validateMaterial` recomputes: the
-- object of the audit bucket for the day of a receipt, in UTC.
abbrev object_name : Option Time → Text → Text
object_name none receipt_id = []
object_name (some t) receipt_id =
    bytes "audit/operations/" ++ (format_date b'/' t ++ (b'/' ∷ (receipt_id ++ bytes ".json")))

unfoldable pub receipt_object : OperationReceipt → Text
receipt_object r = object_name (parse_time r.recorded_at) r.receipt_id

unfoldable pub validate_receipt : OperationReceipt → Result String (Unit {0})
validate_receipt r = do
  guard
      (r.schema_version == receipt_schema_version
        && is_request_id r.receipt_id
        && is_request_id r.request_id
        && is_digest r.request_digest)
      "operation receipt identity is invalid"
  guard (allowed_operation r.operation && is_repository r.repository)
      "operation receipt binding is invalid"
  guard (r.status == accepted || r.status == rejected) "operation receipt status is invalid"
  guard (is_reason_code r.reason_code) "operation receipt reason_code is invalid"
  guard (valid_reference r.provider_reference) "operation receipt provider reference is invalid"
  guard (is_some (parse_time r.recorded_at)) "operation receipt recorded_at is invalid"
  guard (r.audit_object == receipt_object r) "operation receipt audit object is invalid"

unfoldable pub receipt_json : OperationReceipt → Json
receipt_json r = object (
    text_field "schema_version" r.schema_version (
      text_field "receipt_id" r.receipt_id (
        text_field "request_id" r.request_id (
          text_field "request_digest" r.request_digest (
            text_field "operation" r.operation (
              text_field "repository" r.repository (
                text_field "status" r.status (
                  text_field "reason_code" r.reason_code (
                    text_field "provider_reference" r.provider_reference (
                      text_field "recorded_at" r.recorded_at (
                        text_field "audit_object" r.audit_object
                          (text_field "digest" r.digest (signature_field r.signature)))))))))))))

abbrev pub receipt_document : Document OperationReceipt
receipt_document = record {
  current_version = receipt_schema_version;
  schema_version = λ r. r.schema_version;
  with_version = λ v r. record r { schema_version = v };
  validate = λ now. validate_receipt;
  json = receipt_json;
  digest = λ r. r.digest;
  signature = λ r. r.signature;
  with_seal = λ g s r. record r { digest = g; signature = s };
  sign_error = "sign operation receipt";
  unsealed_error = "operation receipt is invalid or unsealed";
  digest_error = "operation receipt digest does not bind its canonical content";
}

pub receipt_document-IsDocument : IsDocument receipt_document
unfolding validate_receipt receipt_object
receipt_document-IsDocument = record {
  validate_sealed = λ t g s d. refl;
  digest_sealed = λ g s d. refl;
  signature_sealed = λ g s d. refl;
  with_seal_sealed = λ g g' s s' d. refl;
}

unfoldable pub seal_receipt : Crypto → Signer → OperationReceipt → Result String OperationReceipt
seal_receipt = Document.seal receipt_document

unfoldable pub verify_receipt_digest : Crypto → Time → OperationReceipt → Result String (Unit {0})
verify_receipt_digest = Document.verify_digest receipt_document

unfoldable pub verify_receipt :
    Crypto → Time → Text → Text → OperationReceipt → Result String (Unit {0})
verify_receipt = Document.verify receipt_document
