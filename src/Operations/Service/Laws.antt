-- ===== src/Operations/Service/Laws.antt =====
-- What the service relies on in its store and in its environment.
use estate_ci.Storage.Repository.{conflict, not_found}
use estate_ci.Prelude.{
  ◌≢◌, err, ℕ, ◌+◌, ◌≡◌, Bool, true, false, Text, ok, if◌then◌else◌, ◌==◌, text_instance,
}
use estate_ci.Contract.Models.{
  OperationRequest, OperationDispatch, OperationDispatchResult, OperationReceipt,
}
use estate_ci.Storage.Repository.{Repository, Reservation}
use estate_ci.Operations.Catalog.{RepositoryTarget}
use estate_ci.Operations.Environment.{Environment}

-- The outbox of a store: no operation removes a record, and a new record has a new request ID.
pub record IsOutbox {S : Type 0} (repo : Repository S) (recorded : S → Text → Bool) : Type 0 where
  pub get_evidence_keeps :
      (g : Text) (s : S) (id : Text)
      → recorded s id ≡ true
      → recorded (repo.get_evidence g s).1 id ≡ true
  pub reserve_keeps :
      (r : Reservation) (s : S) (id : Text)
      → recorded s id ≡ true
      → recorded (repo.reserve_request r s).1 id ≡ true
  pub put_request_keeps :
      (r : OperationRequest) (s : S) (id : Text)
      → recorded s id ≡ true
      → recorded (repo.put_request r s).1 id ≡ true
  pub get_request_keeps :
      (k : Text) (s : S) (id : Text)
      → recorded s id ≡ true
      → recorded (repo.get_request k s).1 id ≡ true
  pub put_dispatch_keeps :
      (d : OperationDispatch) (s : S) (id : Text)
      → recorded s id ≡ true
      → recorded (repo.put_dispatch d s).1 id ≡ true
  pub get_dispatch_keeps :
      (k : Text) (s : S) (id : Text)
      → recorded s id ≡ true
      → recorded (repo.get_dispatch k s).1 id ≡ true
  pub put_result_keeps :
      (r : OperationDispatchResult) (s : S) (id : Text)
      → recorded s id ≡ true
      → recorded (repo.put_dispatch_result r s).1 id ≡ true
  pub get_result_keeps :
      (k : Text) (s : S) (id : Text)
      → recorded s id ≡ true
      → recorded (repo.get_dispatch_result k s).1 id ≡ true
  pub put_receipt_keeps :
      (r : OperationReceipt) (s : S) (id : Text)
      → recorded s id ≡ true
      → recorded (repo.put_receipt r s).1 id ≡ true
  pub get_object_keeps :
      (k : Text) (s : S) (id : Text)
      → recorded s id ≡ true
      → recorded (repo.get_receipt_by_object k s).1 id ≡ true
  pub put_dispatch_new :
      (d : OperationDispatch) (s : S)
      → (repo.put_dispatch d s).0 ≡ ok tt
      → (recorded s d.request_id ≡ false) × (recorded (repo.put_dispatch d s).1 d.request_id ≡ true)

-- A count of the calls of `Dispatch` for each request ID: no other call changes it.
pub record IsCounter {W : Type 0} (env : Environment W) (calls : W → Text → ℕ) : Type 0 where
  pub now_keeps : (w : W) (id : Text) → calls (env.now w).1 id ≡ calls w id
  pub random_keeps : (w : W) (id : Text) → calls (env.random w).1 id ≡ calls w id
  pub role_keeps : (a : Text) (w : W) (id : Text) → calls (env.role_for a w).1 id ≡ calls w id
  pub prepare_keeps :
      (t : RepositoryTarget) (r : OperationRequest) (w : W) (id : Text)
      → calls (env.prepare t r w).1 id ≡ calls w id
  pub recover_keeps :
      (t : RepositoryTarget) (r : OperationRequest) (k : Text) (w : W) (id : Text)
      → calls (env.recover t r k w).1 id ≡ calls w id
  pub dispatch_counts :
      (t : RepositoryTarget) (r : OperationRequest) (k : Text) (w : W) (id : Text)
      → calls (env.dispatch t r k w).1 id ≡ calls w id + (if r.request_id == id then 1 else 0)

-- A store that refuses a second outbox record has the first one.
pub record HasOutbox {S : Type 0} (repo : Repository S) : Type 0 where
  pub conflict_found :
      (d : OperationDispatch) (s : S)
      → (repo.put_dispatch d s).0 ≡ err conflict
      → (repo.get_dispatch d.request_id (repo.put_dispatch d s).1).0 ≢ err not_found
