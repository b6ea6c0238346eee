-- ===== src/Contract/DispatchResult.antt =====
-- `OperationDispatchResult` of internal/contract/models.go: the final outcome of a dispatch.
use Prim.Native.String.{String}
use estate_ci.Prelude.{
  refl, Bool, not, ◌&&◌, ◌||◌, Text, bytes, Result, ◌>>◌, guard, is_empty, ◌==◌, text_instance, leb,
  is_some, length, contains_any, starts_with,
}
use estate_ci.Go.Time.{Time, parse_time}
use estate_ci.Contract.Json.{Json, object, text_field, signature_field}
use estate_ci.Contract.Models.{OperationDispatchResult}
use estate_ci.Contract.Patterns.{is_request_id, is_digest, is_reason_code, line_breaks}
use estate_ci.Contract.Document.{Document, IsDocument}
use estate_ci.Contract.Document
use estate_ci.Contract.Crypto.{Crypto, Signer}

abbrev pub result_schema_version : Text
result_schema_version = bytes "estate.operation-dispatch-result/v1"

abbrev pub accepted : Text
accepted = bytes "accepted"

abbrev pub rejected : Text
rejected = bytes "rejected"

-- The provider reference of a result and of a receipt.
unfoldable pub valid_reference : Text → Bool
valid_reference reference =
    leb (length reference) 512
    && not (contains_any line_breaks reference)
    && (is_empty reference
        || starts_with (bytes "https://") reference
        || starts_with (bytes "simulation://") reference)

unfoldable pub validate_result : OperationDispatchResult → Result String (Unit {0})
validate_result r = do
  guard
      (r.schema_version == result_schema_version
        && is_request_id r.request_id
        && is_request_id r.receipt_id
        && is_digest r.request_digest)
      "operation dispatch result identity is invalid"
  guard ((r.status == accepted || r.status == rejected) && is_reason_code r.reason_code)
      "operation dispatch result status is invalid"
  guard (valid_reference r.provider_reference)
      "operation dispatch result provider reference is invalid"
  guard (is_some (parse_time r.recorded_at)) "operation dispatch result recorded_at is invalid"

unfoldable pub result_json : OperationDispatchResult → Json
result_json r = object (
    text_field "schema_version" r.schema_version (
      text_field "request_id" r.request_id (
        text_field "request_digest" r.request_digest (
          text_field "receipt_id" r.receipt_id (
            text_field "status" r.status (
              text_field "reason_code" r.reason_code (
                text_field "provider_reference" r.provider_reference (
                  text_field "recorded_at" r.recorded_at
                    (text_field "digest" r.digest (signature_field r.signature))))))))))

abbrev pub result_document : Document OperationDispatchResult
result_document = record {
  current_version = result_schema_version;
  schema_version = λ r. r.schema_version;
  with_version = λ v r. record r { schema_version = v };
  validate = λ now. validate_result;
  json = result_json;
  digest = λ r. r.digest;
  signature = λ r. r.signature;
  with_seal = λ g s r. record r { digest = g; signature = s };
  sign_error = "sign operation dispatch result";
  unsealed_error = "operation dispatch result is invalid or unsealed";
  digest_error = "operation dispatch result digest does not bind its canonical content";
}

pub result_document-IsDocument : IsDocument result_document
unfolding validate_result
result_document-IsDocument = record {
  validate_sealed = λ t g s d. refl;
  digest_sealed = λ g s d. refl;
  signature_sealed = λ g s d. refl;
  with_seal_sealed = λ g g' s s' d. refl;
}

unfoldable pub seal_result :
    Crypto → Signer → OperationDispatchResult → Result String OperationDispatchResult
seal_result = Document.seal result_document

unfoldable pub verify_result_digest :
    Crypto → Time → OperationDispatchResult → Result String (Unit {0})
verify_result_digest = Document.verify_digest result_document

unfoldable pub verify_result :
    Crypto → Time → Text → Text → OperationDispatchResult → Result String (Unit {0})
verify_result = Document.verify result_document
