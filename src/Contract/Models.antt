-- ===== src/Contract/Models.antt =====
-- The documents of internal/contract/models.go, and the operations.
use estate_ci.Prelude.{[], Text, bytes, ℤ, Bool, ◌||◌, List, ◌==◌, text_instance, text_eq}

-- Go's `type Operation string`: any text can arrive, and three are allowed.
abbrev pub Operation : Type 0
Operation = Text

abbrev pub operation_refresh_health : Operation
operation_refresh_health = bytes "refresh_estate_health"

abbrev pub operation_rerun_failed : Operation
operation_rerun_failed = bytes "rerun_failed_required_workflow"

abbrev pub operation_cancel_run : Operation
operation_cancel_run = bytes "cancel_superseded_workflow_run"

unfoldable pub allowed_operation : Operation → Bool
unfolding text_eq bytes
allowed_operation operation =
    operation == operation_refresh_health
    || operation == operation_rerun_failed
    || operation == operation_cancel_run

pub record ApprovalEvidence : Type 0 where
  pub approval_id : Text
  pub operation : Operation
  pub requested_by : Text
  pub reason : Text
  pub approvers : List Text
  pub approved_at : Text
  pub decision : Text

pub record WorkflowEvidence : Type 0 where
  pub schema_version : Text
  pub repository : Text
  pub workflow_id : ℤ
  pub workflow_run_id : ℤ
  pub protected_main_sha : Text
  pub plan_digest : Text
  pub conclusion : Text
  pub superseded : Bool
  pub approval : ApprovalEvidence
  pub observed_at : Text
  pub expires_at : Text
  pub digest : Text

pub record OperationIntent : Type 0 where
  pub schema_version : Text
  pub request_id : Text
  pub operation : Operation
  pub repository : Text
  pub workflow_id : ℤ
  pub workflow_run_id : ℤ
  pub protected_main_sha : Text
  pub plan_digest : Text
  pub evidence_digest : Text
  pub reason : Text
  pub expires_at : Text

pub record Signature : Type 0 where
  pub algorithm : Text
  pub key_id : Text
  pub value : Text

pub record OperationRequest : Type 0 where
  pub schema_version : Text
  pub request_id : Text
  pub operation : Operation
  pub repository : Text
  pub workflow_id : ℤ
  pub workflow_run_id : ℤ
  pub protected_main_sha : Text
  pub plan_digest : Text
  pub evidence_digest : Text
  pub reason : Text
  pub requested_by : Text
  pub issued_at : Text
  pub expires_at : Text
  pub nonce : Text
  pub digest : Text
  pub signature : Signature

pub record OperationReceipt : Type 0 where
  pub schema_version : Text
  pub receipt_id : Text
  pub request_id : Text
  pub request_digest : Text
  pub operation : Operation
  pub repository : Text
  pub status : Text
  pub reason_code : Text
  pub provider_reference : Text
  pub recorded_at : Text
  pub audit_object : Text
  pub digest : Text
  pub signature : Signature

pub record OperationDispatch : Type 0 where
  pub schema_version : Text
  pub request_id : Text
  pub request_digest : Text
  pub receipt_id : Text
  pub recovery_token : Text
  pub prepared_at : Text
  pub digest : Text
  pub signature : Signature

pub record OperationDispatchResult : Type 0 where
  pub schema_version : Text
  pub request_id : Text
  pub request_digest : Text
  pub receipt_id : Text
  pub status : Text
  pub reason_code : Text
  pub provider_reference : Text
  pub recorded_at : Text
  pub digest : Text
  pub signature : Signature

-- `Signature{}`
abbrev pub empty_signature : Signature
empty_signature = record { algorithm = []; key_id = []; value = [] }
