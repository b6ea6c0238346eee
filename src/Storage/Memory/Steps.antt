-- ===== src/Storage/Memory/Steps.antt =====
-- The in-memory store of internal/storage/repository.go over time: its operations as a step relation.
use Prim.Native.String.{String}
use estate_ci.Prelude.{
  ◌≡◌, refl, Bool, true, false, some, Text, Result, ok, err, arith, if◌then◌else◌, List, [], ◌∷◌,
  ◌++◌,
}
use estate_ci.Contract.Crypto.{Crypto}
use estate_ci.Contract.Models.{
  WorkflowEvidence, OperationRequest, OperationDispatch, OperationDispatchResult, OperationReceipt,
}
use estate_ci.Contract.Snapshot.{EstateHealthSnapshot, verify_snapshot}
use estate_ci.Storage.Repository.{StorageError, Reservation, validate_reservation}
use estate_ci.Storage.Table.{Table, lookup, has, add, lookup-add_keep}
use estate_ci.Storage.Memory.{
  MemoryRepository, create_entry, reserve_checked, seed_snapshot, seed_evidence, reserve_request,
  put_request, put_dispatch, put_dispatch_result, put_receipt,
}

-- One operation that changes the store, whoever calls it and however it ends. Reads change nothing.
pub data Step (c : Crypto) : MemoryRepository → MemoryRepository → Type 0 where
  seeds_snapshot :
      (s : EstateHealthSnapshot) (m : MemoryRepository) → Step c m (seed_snapshot c s m).1
  seeds_evidence : (e : WorkflowEvidence) (m : MemoryRepository) → Step c m (seed_evidence c e m).1
  reserves : (r : Reservation) (m : MemoryRepository) → Step c m (reserve_request r m).1
  puts_request : (r : OperationRequest) (m : MemoryRepository) → Step c m (put_request c r m).1
  puts_dispatch : (d : OperationDispatch) (m : MemoryRepository) → Step c m (put_dispatch c d m).1
  puts_result :
      (r : OperationDispatchResult) (m : MemoryRepository) → Step c m (put_dispatch_result c r m).1
  puts_receipt : (r : OperationReceipt) (m : MemoryRepository) → Step c m (put_receipt c r m).1

-- Any number of steps, of any callers, in any order.
pub data Reach (c : Crypto) (m : MemoryRepository) : MemoryRepository → Type 0 where
  here : Reach c m m
  next : {n k : MemoryRepository} → Reach c m n → Step c n k → Reach c m k

-- Every entry of `t` is one of `u`.
pub record Extends {V : Type 0} (t u : Table V) : Type 0 where
  pub keeps : (k : Text) (v : V) → lookup k t ≡ some v → lookup k u ≡ some v

Extends-refl : {V : Type 0} (t : Table V) → Extends t t
Extends-refl t = record { keeps = λ k v h. h }

Extends-trans : {V : Type 0} {t u w : Table V} → Extends t u → Extends u w → Extends t w
Extends-trans e f = record { keeps = λ k v h. f.keeps k v (e.keeps k v h) }

Extends-add :
    {V : Type 0} (k : Text) (v : V) (t : Table V) → has k t ≡ false → Extends t (add k v t)
Extends-add k v t h = record { keeps = λ j w e. lookup-add_keep k j v w t (ground arith) e }

-- No table of `m` has lost or changed an entry in `n`.
pub record Grows (m n : MemoryRepository) : Type 0 where
  pub evidence : Extends m.evidence n.evidence
  pub reservations : Extends m.reservations n.reservations
  pub bindings : Extends m.bindings n.bindings
  pub approvals : Extends m.approvals n.approvals
  pub requests : Extends m.requests n.requests
  pub dispatches : Extends m.dispatches n.dispatches
  pub results : Extends m.results n.results
  pub receipts : Extends m.receipts n.receipts

Grows-refl : (m : MemoryRepository) → Grows m m
Grows-refl m = record {
  evidence = Extends-refl _;
  reservations = Extends-refl _;
  bindings = Extends-refl _;
  approvals = Extends-refl _;
  requests = Extends-refl _;
  dispatches = Extends-refl _;
  results = Extends-refl _;
  receipts = Extends-refl _;
}

Grows-trans : {m n k : MemoryRepository} → Grows m n → Grows n k → Grows m k
Grows-trans g h = record {
  evidence = Extends-trans g.evidence h.evidence;
  reservations = Extends-trans g.reservations h.reservations;
  bindings = Extends-trans g.bindings h.bindings;
  approvals = Extends-trans g.approvals h.approvals;
  requests = Extends-trans g.requests h.requests;
  dispatches = Extends-trans g.dispatches h.dispatches;
  results = Extends-trans g.results h.results;
  receipts = Extends-trans g.receipts h.receipts;
}

-- `create_entry` adds its entry or leaves the store as it was.
create_entry_cases :
    (q : Result String (Unit {0})) (message : String) (exists : Bool) (m m' : MemoryRepository)
    → (exists ≡ false → Grows m m')
    → Grows m (create_entry q message exists m m').1
create_entry_cases (err e) message exists m m' h = Grows-refl m
create_entry_cases (ok u) message true m m' h = Grows-refl m
create_entry_cases (ok u) message false m m' h = h refl

add_evidence-Grows :
    (k : Text) (x : WorkflowEvidence) (m : MemoryRepository)
    → has k m.evidence ≡ false
    → Grows m (record m { evidence = add k x m.evidence })
add_evidence-Grows k x m h = record {
  evidence = Extends-add k x m.evidence h;
  reservations = Extends-refl _;
  bindings = Extends-refl _;
  approvals = Extends-refl _;
  requests = Extends-refl _;
  dispatches = Extends-refl _;
  results = Extends-refl _;
  receipts = Extends-refl _;
}

add_request-Grows :
    (k : Text) (x : OperationRequest) (m : MemoryRepository)
    → has k m.requests ≡ false
    → Grows m (record m { requests = add k x m.requests })
add_request-Grows k x m h = record {
  evidence = Extends-refl _;
  reservations = Extends-refl _;
  bindings = Extends-refl _;
  approvals = Extends-refl _;
  requests = Extends-add k x m.requests h;
  dispatches = Extends-refl _;
  results = Extends-refl _;
  receipts = Extends-refl _;
}

add_dispatch-Grows :
    (k : Text) (x : OperationDispatch) (m : MemoryRepository)
    → has k m.dispatches ≡ false
    → Grows m (record m { dispatches = add k x m.dispatches })
add_dispatch-Grows k x m h = record {
  evidence = Extends-refl _;
  reservations = Extends-refl _;
  bindings = Extends-refl _;
  approvals = Extends-refl _;
  requests = Extends-refl _;
  dispatches = Extends-add k x m.dispatches h;
  results = Extends-refl _;
  receipts = Extends-refl _;
}

add_result-Grows :
    (k : Text) (x : OperationDispatchResult) (m : MemoryRepository)
    → has k m.results ≡ false
    → Grows m (record m { results = add k x m.results })
add_result-Grows k x m h = record {
  evidence = Extends-refl _;
  reservations = Extends-refl _;
  bindings = Extends-refl _;
  approvals = Extends-refl _;
  requests = Extends-refl _;
  dispatches = Extends-refl _;
  results = Extends-add k x m.results h;
  receipts = Extends-refl _;
}

add_receipt-Grows :
    (k : Text) (x : OperationReceipt) (m : MemoryRepository)
    → has k m.receipts ≡ false
    → Grows m (record m { receipts = add k x m.receipts })
add_receipt-Grows k x m h = record {
  evidence = Extends-refl _;
  reservations = Extends-refl _;
  bindings = Extends-refl _;
  approvals = Extends-refl _;
  requests = Extends-refl _;
  dispatches = Extends-refl _;
  results = Extends-refl _;
  receipts = Extends-add k x m.receipts h;
}

Grows-if :
    {A : Type 0} {m : MemoryRepository} (b : Bool) (x y : A × MemoryRepository)
    → Grows m x.1
    → (b ≡ false → Grows m y.1)
    → Grows m (if b then x else y).1
Grows-if true x y hx hy = hx
Grows-if false x y hx hy = hy refl

reserve_checked-Grows :
    (q : Result StorageError (Unit {0})) (r : Reservation) (m : MemoryRepository)
    → Grows m (reserve_checked q r m).1
reserve_checked-Grows (err e) r m = Grows-refl m
reserve_checked-Grows (ok u) r m =
    Grows-if (has r.request_id m.reservations) _ _ (Grows-refl m) λ h.
      Grows-if (has r.binding_digest m.bindings) _ _ (Grows-refl m) λ j.
        Grows-if (has r.approval_id m.approvals) _ _ (Grows-refl m) λ k. record {
          evidence = Extends-refl _;
          reservations = Extends-add _ _ m.reservations h;
          bindings = Extends-add _ _ m.bindings j;
          approvals = Extends-add _ _ m.approvals k;
          requests = Extends-refl _;
          dispatches = Extends-refl _;
          results = Extends-refl _;
          receipts = Extends-refl _;
        }

snapshot-Grows :
    (ss : List EstateHealthSnapshot) (m : MemoryRepository) → Grows m (record m { snapshots = ss })
snapshot-Grows ss m = record {
  evidence = Extends-refl _;
  reservations = Extends-refl _;
  bindings = Extends-refl _;
  approvals = Extends-refl _;
  requests = Extends-refl _;
  dispatches = Extends-refl _;
  results = Extends-refl _;
  receipts = Extends-refl _;
}

reserve-Grows : (r : Reservation) (m : MemoryRepository) → Grows m (reserve_request r m).1
unfolding reserve_request
reserve-Grows r m = reserve_checked-Grows (validate_reservation r) r m

Step-Grows : {c : Crypto} {m n : MemoryRepository} → Step c m n → Grows m n
unfolding seed_snapshot seed_evidence put_request put_dispatch put_dispatch_result put_receipt
Step-Grows {c} (seeds_snapshot s m) =
    create_entry_cases (verify_snapshot c s) "seed snapshot is invalid or unsealed" false m _
      (λ h. snapshot-Grows (m.snapshots ++ (s ∷ [])) m)
Step-Grows (seeds_evidence e m) = create_entry_cases _ _ _ m _ (add_evidence-Grows e.digest e m)
Step-Grows (reserves r m) = reserve-Grows r m
Step-Grows (puts_request r m) = create_entry_cases _ _ _ m _ (add_request-Grows r.request_id r m)
Step-Grows (puts_dispatch d m) = create_entry_cases _ _ _ m _ (add_dispatch-Grows d.request_id d m)
Step-Grows (puts_result r m) = create_entry_cases _ _ _ m _ (add_result-Grows r.request_id r m)
Step-Grows (puts_receipt r m) = create_entry_cases _ _ _ m _ (add_receipt-Grows r.receipt_id r m)

-- Whatever operations are made, no stored entry is lost or changed.
pub Reach-Grows : {c : Crypto} {m n : MemoryRepository} → Reach c m n → Grows m n
Reach-Grows here = Grows-refl _
Reach-Grows (next r s) = Grows-trans (Reach-Grows r) (Step-Grows s)
