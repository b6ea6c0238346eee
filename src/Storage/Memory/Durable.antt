-- ===== src/Storage/Memory/Durable.antt =====
-- The writes of `MemoryRepository` in internal/storage/repository.go, and the reads after them.
use Prim.Native.String.{String}
use estate_ci.Prelude.{◌≡◌, refl, Bool, true, false, Result, ok, err}
use estate_ci.Contract.Crypto.{Crypto}
use estate_ci.Contract.Models.{
  OperationRequest, OperationDispatch, OperationDispatchResult, OperationReceipt,
}
use estate_ci.Storage.Table.{lookup-add_self}
use estate_ci.Storage.Memory.{
  MemoryRepository, create_entry, put_request, get_request, put_dispatch, get_dispatch,
  put_dispatch_result, get_dispatch_result, put_receipt, get_receipt,
}
use estate_ci.Storage.Memory.Steps.{Reach, Reach-Grows}

-- When `create_entry` succeeds, its store is the new one.
create_entry-ok :
    (q : Result String (Unit {0})) (message : String) (exists : Bool) (m m' : MemoryRepository)
    → (create_entry q message exists m m').0 ≡ ok tt
    → (create_entry q message exists m m').1 ≡ m'
create_entry-ok (err e) message exists m m' h = cc
create_entry-ok (ok u) message true m m' h = cc
create_entry-ok (ok u) message false m m' h = refl

-- A request that `PutRequest` has stored is read back by `GetRequest` under its request ID, whatever
-- operations of the store are made in between.
pub put_request_durable :
    {c : Crypto} (r : OperationRequest) (m n : MemoryRepository)
    → (put_request c r m).0 ≡ ok tt
    → Reach c (put_request c r m).1 n
    → (get_request r.request_id n).0 ≡ ok r
unfolding put_request get_request
put_request_durable r m n h reach =
    let there =
      (Reach-Grows reach).requests.keeps r.request_id r
        (rw (create_entry-ok _ _ _ m _ h) (lookup-add_self r.request_id r m.requests)) in
    rw there refl

-- An outbox record that `PutDispatch` has stored is read back by `GetDispatch`, whatever operations
-- of the store are made in between.
pub put_dispatch_durable :
    {c : Crypto} (d : OperationDispatch) (m n : MemoryRepository)
    → (put_dispatch c d m).0 ≡ ok tt
    → Reach c (put_dispatch c d m).1 n
    → (get_dispatch d.request_id n).0 ≡ ok d
unfolding put_dispatch get_dispatch
put_dispatch_durable d m n h reach =
    let there =
      (Reach-Grows reach).dispatches.keeps d.request_id d
        (rw (create_entry-ok _ _ _ m _ h) (lookup-add_self d.request_id d m.dispatches)) in
    rw there refl

-- A result that `PutDispatchResult` has stored is read back by `GetDispatchResult`, whatever
-- operations of the store are made in between.
pub put_result_durable :
    {c : Crypto} (r : OperationDispatchResult) (m n : MemoryRepository)
    → (put_dispatch_result c r m).0 ≡ ok tt
    → Reach c (put_dispatch_result c r m).1 n
    → (get_dispatch_result r.request_id n).0 ≡ ok r
unfolding put_dispatch_result get_dispatch_result
put_result_durable r m n h reach =
    let there =
      (Reach-Grows reach).results.keeps r.request_id r
        (rw (create_entry-ok _ _ _ m _ h) (lookup-add_self r.request_id r m.results)) in
    rw there refl

-- A receipt that `PutReceipt` has stored is read back by `GetReceipt` under its receipt ID, whatever
-- operations of the store are made in between.
pub put_receipt_durable :
    {c : Crypto} (r : OperationReceipt) (m n : MemoryRepository)
    → (put_receipt c r m).0 ≡ ok tt
    → Reach c (put_receipt c r m).1 n
    → (get_receipt r.receipt_id n).0 ≡ ok r
unfolding put_receipt get_receipt
put_receipt_durable r m n h reach =
    let there =
      (Reach-Grows reach).receipts.keeps r.receipt_id r
        (rw (create_entry-ok _ _ _ m _ h) (lookup-add_self r.receipt_id r m.receipts)) in
    rw there refl
