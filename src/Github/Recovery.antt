-- ===== src/Github/Recovery.antt =====
-- `recoveryState` of internal/githubapp/client.go: what a dispatch has to be recognised by later.
use Prim.Native.String.{String}
use estate_ci.Prelude.{
  Bool, ◌&&◌, Option, none, some, Text, Result, ok, ◌>>=◌, ◌>>◌, guard, require, ℤ, leb, length,
  ◌==◌, text_instance, int_instance, zero_int,
}
use estate_ci.Go.Base64.{encode, decode}
use estate_ci.Contract.Json.{Json, object, no_fields, text_field, int_field}
use estate_ci.Contract.Canonical.{write_canonical}
use estate_ci.Contract.Models.{Operation, OperationRequest}
use estate_ci.Storage.Cloud.Decoding.{Decoder, strict_json}
use estate_ci.Storage.Table.{lookup}
use estate_ci.Operations.Catalog.{RepositoryTarget, OperationTarget, entries}

pub record RecoveryState : Type 0 where
  pub operation : Operation
  pub repository : Text
  pub workflow_id : ℤ
  pub workflow_run_id : ℤ
  pub protected_main_sha : Text
  pub baseline_run_id : ℤ
  pub baseline_run_attempt : ℤ
  pub provider_reference : Text

unfoldable pub recovery_json : RecoveryState → Json
recovery_json s = object (
    text_field "operation" s.operation (
      text_field "repository" s.repository (
        int_field "workflow_id" s.workflow_id (
          int_field "workflow_run_id" s.workflow_run_id (
            text_field "protected_main_sha" s.protected_main_sha (
              int_field "baseline_run_id" s.baseline_run_id (
                int_field "baseline_run_attempt" s.baseline_run_attempt
                  (text_field "provider_reference" s.provider_reference no_fields))))))))

unfoldable pub encode_recovery_state : RecoveryState → Result String Text
encode_recovery_state s = do raw ← write_canonical (recovery_json s); ok (encode raw)

abbrev or_zero_id : Option ℤ → ℤ
or_zero_id none = zero_int
or_zero_id (some id) = id

abbrev target_id : Option OperationTarget → Option ℤ → ℤ
target_id (some capability) id = capability.workflow_id
target_id none id = or_zero_id id

-- A missing entry is 0.
unfoldable pub target_workflow_id : RepositoryTarget → Operation → ℤ
target_workflow_id target operation =
    target_id (lookup operation (entries target.operations))
      (lookup operation (entries target.workflow_ids))

-- The state belongs to the request, and the request to the catalog's target.
abbrev pub binds : RecoveryState → RepositoryTarget → OperationRequest → Bool
binds s target r =
    s.operation == r.operation
    && s.repository == r.repository
    && s.workflow_id == r.workflow_id
    && s.workflow_run_id == r.workflow_run_id
    && s.protected_main_sha == r.protected_main_sha
    && target.repository == r.repository
    && target_workflow_id target r.operation == r.workflow_id

unfoldable pub decode_recovery_state :
    Decoder RecoveryState → Text → RepositoryTarget → OperationRequest → Result String RecoveryState
decode_recovery_state decoder token target r = do
  raw ← require (decode token) "recovery state is invalid"
  guard (leb (length raw) 3072) "recovery state is invalid"
  state ← strict_json decoder raw
  guard (binds state target r) "recovery state does not bind the request"
  ok state
