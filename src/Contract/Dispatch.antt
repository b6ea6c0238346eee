-- ===== src/Contract/Dispatch.antt =====
-- `OperationDispatch` of internal/contract/models.go: the outbox record of one request.
use Prim.Native.String.{String}
use estate_ci.Prelude.{
  refl, ◌&&◌, Text, bytes, Result, ◌>>◌, guard, ◌==◌, text_instance, leb, is_some, length,
}
use estate_ci.Go.Time.{Time, parse_time}
use estate_ci.Contract.Json.{Json, object, text_field, signature_field}
use estate_ci.Contract.Models.{OperationDispatch}
use estate_ci.Contract.Patterns.{is_request_id, is_digest, is_recovery}
use estate_ci.Contract.Document.{Document, IsDocument}
use estate_ci.Contract.Document
use estate_ci.Contract.Crypto.{Crypto, Signer}

abbrev pub dispatch_schema_version : Text
dispatch_schema_version = bytes "estate.operation-dispatch/v1"

unfoldable pub validate_dispatch : OperationDispatch → Result String (Unit {0})
validate_dispatch d = do
  guard
      (d.schema_version == dispatch_schema_version
        && is_request_id d.request_id
        && is_request_id d.receipt_id
        && is_digest d.request_digest
        && leb (length d.recovery_token) 4096
        && is_recovery d.recovery_token)
      "operation dispatch identity or recovery token is invalid"
  guard (is_some (parse_time d.prepared_at)) "operation dispatch prepared_at is invalid"

unfoldable pub dispatch_json : OperationDispatch → Json
dispatch_json d = object (
    text_field "schema_version" d.schema_version (
      text_field "request_id" d.request_id (
        text_field "request_digest" d.request_digest (
          text_field "receipt_id" d.receipt_id (
            text_field "recovery_token" d.recovery_token (
              text_field "prepared_at" d.prepared_at
                (text_field "digest" d.digest (signature_field d.signature))))))))

abbrev pub dispatch_document : Document OperationDispatch
dispatch_document = record {
  current_version = dispatch_schema_version;
  schema_version = λ d. d.schema_version;
  with_version = λ v d. record d { schema_version = v };
  validate = λ now. validate_dispatch;
  json = dispatch_json;
  digest = λ d. d.digest;
  signature = λ d. d.signature;
  with_seal = λ g s d. record d { digest = g; signature = s };
  sign_error = "sign operation dispatch";
  unsealed_error = "operation dispatch is invalid or unsealed";
  digest_error = "operation dispatch digest does not bind its canonical content";
}

pub dispatch_document-IsDocument : IsDocument dispatch_document
unfolding validate_dispatch
dispatch_document-IsDocument = record {
  validate_sealed = λ t g s d. refl;
  digest_sealed = λ g s d. refl;
  signature_sealed = λ g s d. refl;
  with_seal_sealed = λ g g' s s' d. refl;
}

unfoldable pub seal_dispatch : Crypto → Signer → OperationDispatch → Result String OperationDispatch
seal_dispatch = Document.seal dispatch_document

unfoldable pub verify_dispatch_digest : Crypto → Time → OperationDispatch → Result String (Unit {0})
verify_dispatch_digest = Document.verify_digest dispatch_document

unfoldable pub verify_dispatch :
    Crypto → Time → Text → Text → OperationDispatch → Result String (Unit {0})
verify_dispatch = Document.verify dispatch_document
