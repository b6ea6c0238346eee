-- ===== src/Storage/Memory.antt =====
-- `MemoryRepository` of internal/storage/repository.go. Each operation holds the lock from its
-- test to its write, so it is one step. A map's entries are kept newest first.
pub mod Steps
pub mod SingleUse
pub mod Durable
pub mod Listing
pub mod Seeded
pub mod Receipts
use Prim.Native.String.{String}
use estate_ci.Prelude.{
  ◌≡◌, ◌+◌, ◌-◌, Bool, true, false, not, ◌&&◌, ◌||◌, Option, none, some, List, [], ◌∷◌, ◌++◌, map,
  reverse, Text, Result, ok, err, ◌>>=◌, ◌>>◌, guard, is_ok, ℤ, pos, negsuc, ltb, leb, length, take,
  drop, if◌then◌else◌, ◌==◌, text_instance, text_lt, ℕ, on_error,
}
use estate_ci.Go.Time.{zero_time}
use estate_ci.Contract.Crypto.{Crypto}
use estate_ci.Contract.Models.{
  WorkflowEvidence, OperationRequest, OperationDispatch, OperationDispatchResult, OperationReceipt,
}
use estate_ci.Contract.Snapshot.{EstateHealthSnapshot, verify_snapshot}
use estate_ci.Contract.Evidence.{verify_evidence}
use estate_ci.Contract.Request.{verify_request_digest}
use estate_ci.Contract.Dispatch.{verify_dispatch_digest}
use estate_ci.Contract.DispatchResult.{verify_result_digest}
use estate_ci.Contract.Receipt.{verify_receipt_digest}
use estate_ci.Storage.Repository.{
  StorageError, not_found, conflict, failure, Op, Reservation, Repository, validate_reservation,
}
use estate_ci.Storage.Table.{Table, lookup, has, add}

pub record MemoryRepository : Type 0 where
  -- in the order in which they were seeded
  pub snapshots : List EstateHealthSnapshot
  pub evidence : Table WorkflowEvidence
  pub reservations : Table Text
  pub bindings : Table Text
  pub approvals : Table Text
  pub requests : Table OperationRequest
  pub dispatches : Table OperationDispatch
  pub results : Table OperationDispatchResult
  pub receipts : Table OperationReceipt

abbrev pub new_memory_repository : MemoryRepository
new_memory_repository = record {
  snapshots = [];
  evidence = [];
  reservations = [];
  bindings = [];
  approvals = [];
  requests = [];
  dispatches = [];
  results = [];
  receipts = [];
}

-- A missing entry is `ErrNotFound`.
abbrev pub found : {V : Type 0} → Option V → Result StorageError V
found none = err not_found
found (some v) = ok v

-- `if err := …; err != nil { return e }`, then `if _, exists := …; exists { return ErrConflict }`.
abbrev pub create_entry :
    Result String (Unit {0})
    → String
    → Bool
    → MemoryRepository
    → MemoryRepository
    → Result StorageError (Unit {0}) × MemoryRepository
create_entry (err e) message exists m m' = (err (failure message), m)
create_entry (ok u) message true m m' = (err conflict, m)
create_entry (ok u) message false m m' = (ok tt, m')

unfoldable pub latest_snapshot : Op MemoryRepository EstateHealthSnapshot
latest_snapshot m = (elim (reverse m.snapshots) [ [] ↦ err not_found | s ∷ _ ↦ ok s ], m)

abbrev pub in_limit : ℤ → Bool
in_limit (pos n) = leb 1 n && leb n 100
in_limit (negsuc n) = false

abbrev pub limit_of : ℤ → ℕ
limit_of (pos n) = n
limit_of (negsuc n) = 0

unfoldable pub list_snapshots : ℤ → Op MemoryRepository (List EstateHealthSnapshot)
list_snapshots limit m =
    if in_limit limit
    then (ok (reverse (drop (length m.snapshots - limit_of limit) m.snapshots)), m)
    else (err (failure "snapshot list limit is invalid"), m)

unfoldable pub get_evidence : Text → Op MemoryRepository WorkflowEvidence
get_evidence digest m = (found (lookup digest m.evidence), m)

unfoldable pub get_request : Text → Op MemoryRepository OperationRequest
get_request request_id m = (found (lookup request_id m.requests), m)

unfoldable pub get_dispatch : Text → Op MemoryRepository OperationDispatch
get_dispatch request_id m = (found (lookup request_id m.dispatches), m)

unfoldable pub get_dispatch_result : Text → Op MemoryRepository OperationDispatchResult
get_dispatch_result request_id m = (found (lookup request_id m.results), m)

unfoldable pub get_receipt : Text → Op MemoryRepository OperationReceipt
get_receipt receipt_id m = (found (lookup receipt_id m.receipts), m)

-- The loop over the receipts, whose order Go leaves open.
unfoldable pub find_object : Text → Table OperationReceipt → Option OperationReceipt
find_object name [] = none
find_object name ((k, r) ∷ t) = if r.audit_object == name then some r else find_object name t

unfoldable pub get_receipt_by_object : Text → Op MemoryRepository OperationReceipt
get_receipt_by_object name m = (found (find_object name m.receipts), m)

-- `sort.Slice` by `RecordedAt`, the latest first.
unfoldable pub insert_receipt : OperationReceipt → List OperationReceipt → List OperationReceipt
insert_receipt r [] = r ∷ []
insert_receipt r (q ∷ qs) =
    if text_lt r.recorded_at q.recorded_at then q ∷ insert_receipt r qs else r ∷ q ∷ qs

unfoldable pub sort_receipts : List OperationReceipt → List OperationReceipt
sort_receipts [] = []
sort_receipts (r ∷ rs) = insert_receipt r (sort_receipts rs)

abbrev pub values : {V : Type 0} → Table V → List V
values t = map (λ e. e.1) t

unfoldable pub list_receipts : ℤ → Op MemoryRepository (List OperationReceipt)
list_receipts limit m =
    if in_limit limit
    then (ok (take (limit_of limit) (sort_receipts (values m.receipts))), m)
    else (err (failure "receipt list limit is invalid"), m)

abbrev pub reserve_checked :
    Result StorageError (Unit {0}) → Reservation → Op MemoryRepository (Unit {0})
reserve_checked (err e) r m = (err e, m)
reserve_checked (ok u) r m =
    if has r.request_id m.reservations
    then (err conflict, m)
    else if has r.binding_digest m.bindings
    then (err conflict, m)
    else if has r.approval_id m.approvals
    then (err conflict, m)
    else (
      ok tt,
      record m {
        reservations = add r.request_id (r.nonce ++ (b':' ∷ r.expires_at)) m.reservations;
        bindings = add r.binding_digest r.request_id m.bindings;
        approvals = add r.approval_id r.request_id m.approvals;
      },
    )

unfoldable pub reserve_request : Reservation → Op MemoryRepository (Unit {0})
reserve_request r m = reserve_checked (validate_reservation r) r m

module _ (c : Crypto) where
  unfoldable pub seed_snapshot : EstateHealthSnapshot → Op MemoryRepository (Unit {0})
  seed_snapshot s m =
      create_entry (verify_snapshot c s) "seed snapshot is invalid or unsealed" false m
        (record m { snapshots = m.snapshots ++ (s ∷ []) })

  unfoldable pub seed_evidence : WorkflowEvidence → Op MemoryRepository (Unit {0})
  seed_evidence e m =
      create_entry (verify_evidence c zero_time e) "seed evidence is invalid or unsealed"
        (has e.digest m.evidence) m (record m { evidence = add e.digest e m.evidence })

  unfoldable pub put_request : OperationRequest → Op MemoryRepository (Unit {0})
  put_request r m =
      create_entry (verify_request_digest c zero_time r) "operation request is invalid or unsealed"
        (has r.request_id m.requests) m (record m { requests = add r.request_id r m.requests })

  unfoldable pub put_dispatch : OperationDispatch → Op MemoryRepository (Unit {0})
  put_dispatch d m =
      create_entry (verify_dispatch_digest c zero_time d)
        "operation dispatch is invalid or unsealed" (has d.request_id m.dispatches) m
        (record m { dispatches = add d.request_id d m.dispatches })

  unfoldable pub put_dispatch_result : OperationDispatchResult → Op MemoryRepository (Unit {0})
  put_dispatch_result r m =
      create_entry (verify_result_digest c zero_time r)
        "operation dispatch result is invalid or unsealed" (has r.request_id m.results) m
        (record m { results = add r.request_id r m.results })

  unfoldable pub put_receipt : OperationReceipt → Op MemoryRepository (Unit {0})
  put_receipt r m =
      create_entry (verify_receipt_digest c zero_time r) "operation receipt is invalid or unsealed"
        (has r.receipt_id m.receipts) m (record m { receipts = add r.receipt_id r m.receipts })

  abbrev pub memory_repository : Repository MemoryRepository
  memory_repository = record {
    latest_snapshot = latest_snapshot;
    list_snapshots = list_snapshots;
    get_evidence = get_evidence;
    reserve_request = reserve_request;
    put_request = put_request;
    get_request = get_request;
    put_dispatch = put_dispatch;
    get_dispatch = get_dispatch;
    put_dispatch_result = put_dispatch_result;
    get_dispatch_result = get_dispatch_result;
    put_receipt = put_receipt;
    get_receipt_by_object = get_receipt_by_object;
    get_receipt = get_receipt;
    list_receipts = list_receipts;
  }
