-- ===== src/Operations/Service/MemoryOutbox.antt =====
-- The in-memory store of internal/storage/repository.go as the store of the service.
use Prim.Native.String.{String}
use estate_ci.Prelude.{
  Option-cases, inl, inr, ◌≢◌, ◌≡◌, refl, Bool, true, false, Text, Result, ok, err, arith,
}
use estate_ci.Contract.Crypto.{Crypto}
use estate_ci.Contract.Models.{OperationDispatch}
use estate_ci.Operations.Service.Laws.{HasOutbox}
use estate_ci.Storage.Repository.{
  Reservation, StorageError, conflict, not_found, validate_reservation,
}
use estate_ci.Storage.Table.{has, lookup, add, lookup-add, lookup-add_self}
use estate_ci.Storage.Memory.{
  MemoryRepository, memory_repository, create_entry, found, reserve_checked, get_evidence,
  reserve_request, put_request, get_request, put_dispatch, get_dispatch, put_dispatch_result,
  get_dispatch_result, put_receipt, get_receipt_by_object,
}
use estate_ci.Operations.Service.Laws.{IsOutbox}

-- The request has an outbox record.
abbrev pub has_dispatch : MemoryRepository → Text → Bool
has_dispatch m id = has id m.dispatches

-- `create_entry` with an entry of another table keeps the outbox as it is.
create_elsewhere :
    (q : Result String (Unit {0})) (message : String) (exists : Bool) (m m' : MemoryRepository)
    (id : Text)
    → m'.dispatches ≡ m.dispatches
    → has_dispatch m id ≡ true
    → has_dispatch (create_entry q message exists m m').1 id ≡ true
create_elsewhere (err e) message exists m m' id same h = h
create_elsewhere (ok u) message true m m' id same h = h
create_elsewhere (ok u) message false m m' id same h = rw same h

reserve_elsewhere :
    (q : Result StorageError (Unit {0})) (r : Reservation) (m : MemoryRepository)
    → (reserve_checked q r m).1.dispatches ≡ m.dispatches
reserve_elsewhere (err e) r m = refl
reserve_elsewhere (ok u) r m = ground arith

create_adds :
    (q : Result String (Unit {0})) (message : String) (d : OperationDispatch) (m : MemoryRepository)
    (id : Text)
    → has_dispatch m id ≡ true
    → has_dispatch
        (create_entry q message
          (has d.request_id m.dispatches)
          m
          (record m { dispatches = add d.request_id d m.dispatches })).1
        id
      ≡ true
create_adds (err e) message d m id h = h
create_adds (ok u) message d m id h = ground (arith, lookup-add d.request_id id d m.dispatches)

create_new :
    (q : Result String (Unit {0})) (message : String) (d : OperationDispatch) (m : MemoryRepository)
    → (create_entry q message
        (has d.request_id m.dispatches)
        m
        (record m { dispatches = add d.request_id d m.dispatches })).0
      ≡ ok tt
    → (has_dispatch m d.request_id ≡ false)
      × (has_dispatch
            (create_entry q message
              (has d.request_id m.dispatches)
              m
              (record m { dispatches = add d.request_id d m.dispatches })).1
            d.request_id
          ≡ true)
create_new (err e) message d m h = (cc, cc)
create_new (ok u) message d m h =
    (ground arith, ground (arith, lookup-add_self d.request_id d m.dispatches))

pub memory-IsOutbox : (c : Crypto) → IsOutbox (memory_repository c) has_dispatch
unfolding get_evidence reserve_request put_request get_request put_dispatch get_dispatch
    put_dispatch_result get_dispatch_result put_receipt get_receipt_by_object
memory-IsOutbox c = record {
  get_evidence_keeps = λ g m id h. h;
  reserve_keeps = λ r m id h. rw (reserve_elsewhere (validate_reservation r) r m) h;
  put_request_keeps = λ r m id h. create_elsewhere _ _ _ m _ id refl h;
  get_request_keeps = λ k m id h. h;
  put_dispatch_keeps = λ d m id h. create_adds _ _ d m id h;
  get_dispatch_keeps = λ k m id h. h;
  put_result_keeps = λ r m id h. create_elsewhere _ _ _ m _ id refl h;
  get_result_keeps = λ k m id h. h;
  put_receipt_keeps = λ r m id h. create_elsewhere _ _ _ m _ id refl h;
  get_object_keeps = λ k m id h. h;
  put_dispatch_new = λ d m h. create_new _ _ d m h;
}

create_found :
    (q : Result String (Unit {0})) (message : String) (d : OperationDispatch)
    (m m' : MemoryRepository)
    → (create_entry q message (has d.request_id m.dispatches) m m').0 ≡ err conflict
    → found (
        lookup d.request_id
          (create_entry q message (has d.request_id m.dispatches) m m').1.dispatches)
      ≢ err not_found
create_found (err e) message d m m' h = cc
create_found (ok u) message d m m' h = elim (Option-cases (lookup d.request_id m.dispatches)) [
  | inl absent ↦ ground arith
  | inr (x, there) ↦ ground arith
]

pub memory-HasOutbox : (c : Crypto) → HasOutbox (memory_repository c)
unfolding put_dispatch get_dispatch
memory-HasOutbox c = record { conflict_found = λ d m h. create_found _ _ d m _ h }
