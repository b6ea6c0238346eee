-- ===== src/Operations/Service/Fuel.antt =====
-- The fuel of `resume`, which stands for the calls of `prepare` and `resume` of one another in
-- internal/operations/service.go.
use Prim.Native.String.{String}
use estate_ci.Prelude.{ℕ, suc, ◌≡◌, ◌≢◌, refl, Text, Result, ok, err, subst, sym, ◌∙◌}
use estate_ci.Auth.Identity.{Identity}
use estate_ci.Auth.Roles.{Role}
use estate_ci.Contract.Models.{
  OperationIntent, OperationRequest, OperationDispatch, OperationReceipt,
}
use estate_ci.Storage.Repository.{StorageError, not_found, conflict}
use estate_ci.Operations.Catalog.{RepositoryTarget, CatalogError}
use estate_ci.Operations.Environment.{Service, DispatchOutcome}
use estate_ci.Operations.Exec.{internal, Exec, State, lift, attempt, ◌>>=◌}
use estate_ci.Operations.Exec.Agrees.{Agrees, Agrees-self, Agrees-bind, Agrees-if}
use estate_ci.Operations.Identifiers.{uuid_text}
use estate_ci.Operations.Service.Sealed.{request_id-dispatch}
use estate_ci.Operations.Service.Preserves.{outbox_write}
use estate_ci.Operations.Service.Laws.{HasOutbox}
use estate_ci.Operations.Outbox.{after_put_dispatch, prepare, resume_dispatch, resume}
use estate_ci.Operations.Service.{
  resume_same, after_put_request, after_reserve, create_new, create_or_resume, authorized, create,
}

ruleset agrees_rules = (Agrees-bind, Agrees-self, Agrees-if)

module _ {S W : Type 0} (service : Service S W) (store : HasOutbox service.repository) where
  -- With an outbox record, `resume` does not prepare again.
  found-Agrees :
      (one other : Exec S W OperationReceipt) (t : RepositoryTarget) (r : OperationRequest)
      (q : Result StorageError OperationDispatch) (s : State S W)
      → q ≢ err not_found
      → resume_dispatch service one t r q s ≡ resume_dispatch service other t r q s
  unfolding resume_dispatch
  found-Agrees one other t r (ok d) s there = refl
  found-Agrees one other t r (err not_found) s there = absurd (there refl)
  found-Agrees one other t r (err e) s there = refl

  resume_found :
      (fuel : ℕ) (t : RepositoryTarget) (r : OperationRequest) (s : State S W)
      → (service.repository.get_dispatch r.request_id s.store).0 ≢ err not_found
      → resume service (suc fuel) t r s ≡ resume service 1 t r s
  unfolding resume attempt ◌>>=◌
  resume_found fuel t r s there =
      found-Agrees _ _ t r (service.repository.get_dispatch r.request_id s.store).0 _ there

  after_write :
      (fuel : ℕ) (t : RepositoryTarget) (r : OperationRequest) (d : OperationDispatch)
      (o : DispatchOutcome) (s : State S W) (q : Result StorageError (Unit {0}))
      → d.request_id ≡ r.request_id
      → (service.repository.put_dispatch d s.store).0 ≡ q
      → after_put_dispatch service t r d o
          (resume service (suc fuel) t r)
          q
          (record s { store = (service.repository.put_dispatch d s.store).1 })
        ≡ after_put_dispatch service t r d o
            (resume service 1 t r)
            q
            (record s { store = (service.repository.put_dispatch d s.store).1 })
  unfolding after_put_dispatch
  after_write fuel t r d o s (ok u) same e = refl
  after_write fuel t r d o s (err conflict) same e = resume_found fuel t r _ (
      subst
        (λ id.
          (service.repository.get_dispatch id (service.repository.put_dispatch d s.store).1).0
          ≢ err not_found)
        same (store.conflict_found d s.store e))
  after_write fuel t r d o s (err x) same e = refl

  sealed_write :
      (fuel : ℕ) (t : RepositoryTarget) (r : OperationRequest) (o : DispatchOutcome)
      (q : Result String OperationDispatch)
      → ((d : OperationDispatch) → q ≡ ok d → d.request_id ≡ r.request_id)
      → Agrees
          (lift (internal "seal operation dispatch") q >>= λ d.
            outbox_write service t r d o (resume service (suc fuel) t r))
          (lift (internal "seal operation dispatch") q >>= λ d.
            outbox_write service t r d o (resume service 1 t r))
  unfolding lift attempt ◌>>=◌
  sealed_write fuel t r o (ok d) same = record {
    at = λ s. after_write fuel t r d o s _ (same d refl) refl;
  }
  sealed_write fuel t r o (err e) same = record { at = λ s. refl }

  prepare-Agrees :
      (fuel : ℕ) (t : RepositoryTarget) (r : OperationRequest)
      → Agrees
          (prepare service (resume service (suc fuel) t r) t r)
          (prepare service (resume service 1 t r) t r)
  unfolding prepare
  prepare-Agrees fuel t r = Agrees-bind _ _ _ λ (token, prepared). Agrees-bind _ _ _ λ random.
      Agrees-bind _ _ _ λ value. Agrees-bind _ _ _ λ now.
        sealed_write fuel t r prepared _
          (request_id-dispatch service.crypto service.signer r (uuid_text value) token now)

  resumed-Agrees :
      (one other : Exec S W OperationReceipt) (t : RepositoryTarget) (r : OperationRequest)
      (q : Result StorageError OperationDispatch)
      → Agrees one other
      → Agrees (resume_dispatch service one t r q) (resume_dispatch service other t r q)
  unfolding resume_dispatch
  resumed-Agrees one other t r (ok d) k = Agrees-self _
  resumed-Agrees one other t r (err not_found) k = k
  resumed-Agrees one other t r (err e) k = Agrees-self _

  resume-Agrees :
      (fuel : ℕ) (t : RepositoryTarget) (r : OperationRequest)
      → Agrees (resume service (suc (suc fuel)) t r) (resume service 2 t r)
  unfolding resume
  resume-Agrees fuel t r =
      Agrees-bind _ _ _ λ found. resumed-Agrees _ _ t r found (prepare-Agrees fuel t r)

  same-Agrees :
      (fuel : ℕ) (t : RepositoryTarget) (i : OperationIntent) (email : Text)
      (q : Result StorageError OperationRequest)
      → Agrees
          (resume_same service (suc (suc fuel)) t i email q)
          (resume_same service 2 t i email q)
  unfolding resume_same
  same-Agrees fuel t i email (ok r) = search (agrees_rules, resume-Agrees)
  same-Agrees fuel t i email (err e) = Agrees-self _

  -- `prepare` is also reached from a state in which the request has just been stored.
  prepared-Agrees :
      (fuel : ℕ) (t : RepositoryTarget) (r : OperationRequest)
      → Agrees
          (prepare service (resume service (suc (suc fuel)) t r) t r)
          (prepare service (resume service 2 t r) t r)
  prepared-Agrees fuel t r = record {
    at = λ s. (prepare-Agrees (suc fuel) t r).at s ∙ sym ((prepare-Agrees 1 t r).at s);
  }

  stored-Agrees :
      (fuel : ℕ) (t : RepositoryTarget) (i : OperationIntent) (email : Text) (r : OperationRequest)
      (q : Result StorageError (Unit {0}))
      → Agrees
          (after_put_request service (suc (suc fuel)) t i email r q)
          (after_put_request service 2 t i email r q)
  unfolding after_put_request
  stored-Agrees fuel t i email r (ok u) = prepared-Agrees fuel t r
  stored-Agrees fuel t i email r (err conflict) = search (agrees_rules, same-Agrees)
  stored-Agrees fuel t i email r (err e) = Agrees-self _

  reserved-Agrees :
      (fuel : ℕ) (t : RepositoryTarget) (i : OperationIntent) (email : Text) (r : OperationRequest)
      (q : Result StorageError (Unit {0}))
      → Agrees
          (after_reserve service (suc (suc fuel)) t i email r q)
          (after_reserve service 2 t i email r q)
  unfolding after_reserve
  reserved-Agrees fuel t i email r (ok u) = search (agrees_rules, stored-Agrees)
  reserved-Agrees fuel t i email r (err conflict) = search (agrees_rules, same-Agrees)
  reserved-Agrees fuel t i email r (err e) = Agrees-self _

  created-Agrees :
      (fuel : ℕ) (t : RepositoryTarget) (identity : Identity) (i : OperationIntent)
      → Agrees
          (create_new service (suc (suc fuel)) t identity i)
          (create_new service 2 t identity i)
  unfolding create_new
  created-Agrees fuel t identity i = search (Agrees-bind, reserved-Agrees) depth 24

  continued-Agrees :
      (fuel : ℕ) (t : RepositoryTarget) (identity : Identity) (i : OperationIntent)
      (q : Result StorageError OperationRequest)
      → Agrees
          (create_or_resume service (suc (suc fuel)) t identity i q)
          (create_or_resume service 2 t identity i q)
  unfolding create_or_resume
  continued-Agrees fuel t identity i (ok r) = search (Agrees-bind, resume-Agrees) depth 8
  continued-Agrees fuel t identity i (err not_found) = created-Agrees fuel t identity i
  continued-Agrees fuel t identity i (err e) = Agrees-self _

  targeted-Agrees :
      (fuel : ℕ) (identity : Identity) (i : OperationIntent)
      (q : Result CatalogError RepositoryTarget)
      → Agrees
          (authorized service (suc (suc fuel)) identity i q)
          (authorized service 2 identity i q)
  targeted-Agrees fuel identity i (ok t) = search (Agrees-bind, continued-Agrees)
  targeted-Agrees fuel identity i (err e) = Agrees-self _

  create-Agrees :
      (fuel : ℕ) (identity : Identity) (role : Role) (i : OperationIntent)
      → Agrees (create service (suc (suc fuel)) identity role i) (create service 2 identity role i)
  unfolding create
  create-Agrees fuel identity role i = search (Agrees-bind, targeted-Agrees)

  -- On a store that has the outbox record which it refuses to write again, `Create` with any fuel
  -- from two on has the same result and leaves the same store and world as with two.
  pub create_fuel_enough :
      (fuel : ℕ) (identity : Identity) (role : Role) (i : OperationIntent) (s : State S W)
      → create service (suc (suc fuel)) identity role i s ≡ create service 2 identity role i s
  create_fuel_enough fuel identity role i s = (create-Agrees fuel identity role i).at s
