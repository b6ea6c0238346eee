-- ===== src/Storage/Repository.antt =====
-- The `Repository` interface of internal/storage/repository.go, over the state `S` of the store.
-- Every operation may change the state of the store, and may fail.
use Prim.Native.String.{String}
use estate_ci.Prelude.{
  List, Text, Result, ◌>>◌, guard, ◌&&◌, is_some, ℤ, ◌≡◌, ◌⊎◌, inl, inr, refl, Bool, true, false,
  ok, err,
}
use estate_ci.Go.Time.{parse_time}
use estate_ci.Contract.Models.{
  WorkflowEvidence, OperationRequest, OperationDispatch, OperationDispatchResult, OperationReceipt,
}
use estate_ci.Contract.Snapshot.{EstateHealthSnapshot}
use estate_ci.Contract.Patterns.{is_request_id, is_digest, is_nonce}

-- `ErrNotFound`, `ErrConflict`, and every other error with its message.
pub data StorageError : Type 0 where
  not_found : StorageError
  conflict : StorageError
  failure : String → StorageError

-- An operation of the store.
abbrev pub Op : Type 0 → Type 0 → Type 0
Op S A = S → Result StorageError A × S

-- The binding digest, the approval and the request of one reservation.
pub record Reservation : Type 0 where
  pub request_id : Text
  pub binding_digest : Text
  pub approval_id : Text
  pub nonce : Text
  pub expires_at : Text

pub record Repository (S : Type 0) : Type 0 where
  pub latest_snapshot : Op S EstateHealthSnapshot
  pub list_snapshots : ℤ → Op S (List EstateHealthSnapshot)
  pub get_evidence : Text → Op S WorkflowEvidence
  pub reserve_request : Reservation → Op S (Unit {0})
  pub put_request : OperationRequest → Op S (Unit {0})
  pub get_request : Text → Op S OperationRequest
  pub put_dispatch : OperationDispatch → Op S (Unit {0})
  pub get_dispatch : Text → Op S OperationDispatch
  pub put_dispatch_result : OperationDispatchResult → Op S (Unit {0})
  pub get_dispatch_result : Text → Op S OperationDispatchResult
  pub put_receipt : OperationReceipt → Op S (Unit {0})
  pub get_receipt_by_object : Text → Op S OperationReceipt
  pub get_receipt : Text → Op S OperationReceipt
  pub list_receipts : ℤ → Op S (List OperationReceipt)

unfoldable pub validate_reservation : Reservation → Result StorageError (Unit {0})
validate_reservation r = do
  guard
      (is_request_id r.request_id
        && is_request_id r.approval_id
        && is_digest r.binding_digest
        && is_nonce r.nonce)
      (failure "replay reservation identity is invalid")
  guard (is_some (parse_time r.expires_at)) (failure "replay reservation expiry is invalid")

-- Two checks in a row fail with a message only.
pub guards-cases :
    (a b : Bool) (m n : String)
    → ((guard a (failure m) >> guard b (failure n)) ≡ ok tt)
      ⊎ ((k : String) × ((guard a (failure m) >> guard b (failure n)) ≡ err (failure k)))
guards-cases true true m n = inl refl
guards-cases true false m n = inr (n, refl)
guards-cases false b m n = inr (m, refl)
