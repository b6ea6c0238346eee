-- ===== src/Contract/Request.antt =====
-- `OperationRequest` of internal/contract/models.go.
use Prim.Native.String.{String}
use estate_ci.Prelude.{
  refl, ◌+◌, ◌*◌, Bool, false, not, ◌&&◌, ◌||◌, Option, none, some, Text, bytes, Result, ◌>>◌,
  guard, ◌==◌, text_instance, int_instance, ltb, leb, nat_eq, is_neg, is_positive, zero_int,
}
use estate_ci.Go.Time.{Time, zero_time, second, minute, parse_time}
use estate_ci.Contract.Json.{Json, object, text_field, int_field, signature_field}
use estate_ci.Contract.Models.{OperationRequest, allowed_operation, operation_refresh_health}
use estate_ci.Contract.Patterns.{
  is_request_id, is_repository, is_sha, is_digest, is_email, is_nonce, validate_reason,
}
use estate_ci.Contract.Document.{Document, IsDocument}
use estate_ci.Contract.Document
use estate_ci.Contract.Crypto.{Crypto, Signer}

abbrev pub request_schema_version : Text
request_schema_version = bytes "estate.operation-request/v1"

-- `issuedErr != nil || expiresErr != nil || …` is false.
abbrev pub in_window : Option Time → Option Time → Bool
in_window none expires = false
in_window (some issued) none = false
in_window (some issued) (some expires) = ltb issued expires && leb expires (issued + 10 * minute)

-- `!now.IsZero() && (…)` is false.
abbrev pub is_current : Time → Option Time → Option Time → Bool
is_current now none expires = false
is_current now (some issued) none = false
is_current now (some issued) (some expires) =
    nat_eq now zero_time || leb issued (now + 30 * second) && ltb now expires

unfoldable pub validate_request : Time → OperationRequest → Result String (Unit {0})
validate_request now r = do
  guard (r.schema_version == request_schema_version && is_request_id r.request_id)
      "operation request identity is invalid"
  guard (allowed_operation r.operation && is_repository r.repository)
      "operation or repository is not allowlisted"
  guard (is_positive r.workflow_id && not (is_neg r.workflow_run_id) && is_sha r.protected_main_sha)
      "workflow binding is invalid"
  guard (is_digest r.plan_digest && is_digest r.evidence_digest)
      "plan or evidence digest is invalid"
  validate_reason r.reason
  guard (is_email r.requested_by && is_nonce r.nonce) "requester or nonce is invalid"
  let issued = parse_time r.issued_at
  let expires = parse_time r.expires_at
  guard (in_window issued expires) "operation expiry must be after issue time and within 10 minutes"
  guard (is_current now issued expires) "operation request is not currently valid"
  guard (not (r.operation == operation_refresh_health && not (r.workflow_run_id == zero_int)))
      "health refresh must not select a workflow run"
  guard (not (not (r.operation == operation_refresh_health) && not (is_positive r.workflow_run_id)))
      "workflow-run operation requires workflow_run_id"

unfoldable pub request_json : OperationRequest → Json
request_json r = object (
    text_field "schema_version" r.schema_version (
      text_field "request_id" r.request_id (
        text_field "operation" r.operation (
          text_field "repository" r.repository (
            int_field "workflow_id" r.workflow_id (
              int_field "workflow_run_id" r.workflow_run_id (
                text_field "protected_main_sha" r.protected_main_sha (
                  text_field "plan_digest" r.plan_digest (
                    text_field "evidence_digest" r.evidence_digest (
                      text_field "reason" r.reason (
                        text_field "requested_by" r.requested_by (
                          text_field "issued_at" r.issued_at (
                            text_field "expires_at" r.expires_at (
                              text_field "nonce" r.nonce (
                                text_field "digest" r.digest
                                  (signature_field r.signature))))))))))))))))

abbrev pub request_document : Document OperationRequest
request_document = record {
  current_version = request_schema_version;
  schema_version = λ r. r.schema_version;
  with_version = λ v r. record r { schema_version = v };
  validate = validate_request;
  json = request_json;
  digest = λ r. r.digest;
  signature = λ r. r.signature;
  with_seal = λ g s r. record r { digest = g; signature = s };
  sign_error = "sign operation request";
  unsealed_error = "signed operation request is invalid";
  digest_error = "operation request digest does not bind its canonical content";
}

pub request_document-IsDocument : IsDocument request_document
unfolding validate_request
request_document-IsDocument = record {
  validate_sealed = λ t g s d. refl;
  digest_sealed = λ g s d. refl;
  signature_sealed = λ g s d. refl;
  with_seal_sealed = λ g g' s s' d. refl;
}

unfoldable pub seal_request : Crypto → Signer → OperationRequest → Result String OperationRequest
seal_request = Document.seal request_document

unfoldable pub verify_request_digest : Crypto → Time → OperationRequest → Result String (Unit {0})
verify_request_digest = Document.verify_digest request_document

unfoldable pub verify_request :
    Crypto → Time → Text → Text → OperationRequest → Result String (Unit {0})
verify_request = Document.verify request_document
