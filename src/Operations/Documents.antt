-- ===== src/Operations/Documents.antt =====
-- The documents that internal/operations/service.go makes of one another, and the tests that one
-- belongs to another.
use estate_ci.Prelude.{Bool, ◌&&◌, [], Text, if◌then◌else◌, ◌==◌, text_instance, int_instance}
use estate_ci.Go.Time.{Time, format_time}
use estate_ci.Go.Strings.{to_lower, equal_fold}
use estate_ci.Contract.Json.{Json, object, no_fields, text_field, int_field}
use estate_ci.Contract.Models.{
  OperationIntent, OperationRequest, OperationDispatch, OperationDispatchResult, OperationReceipt,
  empty_signature,
}
use estate_ci.Contract.Request.{request_schema_version}
use estate_ci.Contract.DispatchResult.{accepted, rejected}
use estate_ci.Contract.Receipt.{receipt_schema_version, receipt_object}
use estate_ci.Operations.Environment.{DispatchOutcome}

-- The stored request is the one that the intent and its requester describe.
unfoldable pub request_matches_intent : OperationRequest → OperationIntent → Text → Bool
request_matches_intent r i requester =
    r.request_id == i.request_id
    && r.operation == i.operation
    && r.repository == i.repository
    && r.workflow_id == i.workflow_id
    && r.workflow_run_id == i.workflow_run_id
    && r.protected_main_sha == i.protected_main_sha
    && r.plan_digest == i.plan_digest
    && r.evidence_digest == i.evidence_digest
    && r.reason == i.reason
    && equal_fold r.requested_by requester
    && r.expires_at == i.expires_at

-- What `operationBindingDigest` digests: the operation, and not the identity of the request.
unfoldable pub binding_json : OperationRequest → Json
binding_json r = object (
    text_field "operation" r.operation (
      text_field "repository" r.repository (
        int_field "workflow_id" r.workflow_id (
          int_field "workflow_run_id" r.workflow_run_id (
            text_field "protected_main_sha" r.protected_main_sha (
              text_field "plan_digest" r.plan_digest (
                text_field "evidence_digest" r.evidence_digest (
                  text_field "requested_by" r.requested_by
                    (text_field "reason" r.reason no_fields)))))))))

-- The request that `Create` makes of an intent.
unfoldable pub request_of : OperationIntent → Text → Time → Time → Text → OperationRequest
request_of i email now expires_at nonce = record {
  schema_version = request_schema_version;
  request_id = i.request_id;
  operation = i.operation;
  repository = i.repository;
  workflow_id = i.workflow_id;
  workflow_run_id = i.workflow_run_id;
  protected_main_sha = i.protected_main_sha;
  plan_digest = i.plan_digest;
  evidence_digest = i.evidence_digest;
  reason = i.reason;
  requested_by = to_lower email;
  issued_at = format_time now;
  expires_at = format_time expires_at;
  nonce = nonce;
  digest = [];
  signature = empty_signature;
}

unfoldable pub dispatch_of : OperationRequest → Text → Text → Time → OperationDispatch
dispatch_of r receipt_id token now = record {
  schema_version = [];
  request_id = r.request_id;
  request_digest = r.digest;
  receipt_id = receipt_id;
  recovery_token = token;
  prepared_at = format_time now;
  digest = [];
  signature = empty_signature;
}

unfoldable pub result_of :
    OperationRequest → OperationDispatch → DispatchOutcome → Time → OperationDispatchResult
result_of r d outcome now = record {
  schema_version = [];
  request_id = r.request_id;
  request_digest = r.digest;
  receipt_id = d.receipt_id;
  status = if outcome.accepted then accepted else rejected;
  reason_code = outcome.reason_code;
  provider_reference = outcome.provider_reference;
  recorded_at = format_time now;
  digest = [];
  signature = empty_signature;
}

-- The receipt without its audit object, and with it.
abbrev draft_receipt : OperationRequest → OperationDispatchResult → OperationReceipt
draft_receipt r result = record {
  schema_version = receipt_schema_version;
  receipt_id = result.receipt_id;
  request_id = r.request_id;
  request_digest = r.digest;
  operation = r.operation;
  repository = r.repository;
  status = result.status;
  reason_code = result.reason_code;
  provider_reference = result.provider_reference;
  recorded_at = result.recorded_at;
  audit_object = [];
  digest = [];
  signature = empty_signature;
}

unfoldable pub receipt_of : OperationRequest → OperationDispatchResult → OperationReceipt
receipt_of r result = let d = draft_receipt r result in record d { audit_object = receipt_object d }

-- The final result is the one of this request and this outbox record.
unfoldable pub result_matches :
    OperationRequest → OperationDispatch → OperationDispatchResult → Bool
result_matches r d result =
    result.request_id == r.request_id
    && result.request_digest == r.digest
    && result.receipt_id == d.receipt_id
