-- ===== src/Operations/Service/Returns.antt =====
-- `prepare` and `resume` of internal/operations/service.go, which call one another.
use Prim.Native.String.{String}
use estate_ci.Prelude.{
  ℕ, suc, ◌≡◌, ◌≢◌, refl, Text, Result, ok, err, false, subst, sym, ap, ◌∙◌, text_instance,
}
use mathlib.Core.Bool.{false≢true}
use estate_ci.Go.Time.{Time}
use estate_ci.Auth.Identity.{Identity}
use estate_ci.Auth.Roles.{Role}
use estate_ci.Contract.Models.{
  OperationIntent, OperationRequest, OperationDispatch, OperationReceipt,
}
use estate_ci.Storage.Repository.{StorageError, not_found, conflict}
use estate_ci.Operations.Catalog.{RepositoryTarget, CatalogError, not_catalogued, disabled, other}
use estate_ci.Operations.Environment.{Service, DispatchOutcome}
use estate_ci.Operations.Exec.{Failure, stuck, internal, State, lift, attempt, raise, ◌>>=◌}
use estate_ci.Operations.Exec.Settles.{
  Settles, Settles-attempt, Settles-bind, Settles-lift, Settles-sense, runs_out, settles_rules,
}
use estate_ci.Operations.Identifiers.{uuid_text}
use estate_ci.Operations.Service.Sealed.{request_id-dispatch}
use estate_ci.Operations.Service.Preserves.{outbox_write}
use estate_ci.Operations.Outbox.{after_put_dispatch, prepare, resume}
use estate_ci.Operations.Service.{
  resume_same, after_put_request, after_reserve, intent_expiry, create_new, create_or_resume,
  authorized, create, catalog_failure,
}
use estate_ci.Operations.Service.Laws.{HasOutbox}
use estate_ci.Operations.Service.Settled.{
  dispatch-Settles, found-Settles, resume_dispatch-Settles, validate_evidence-Settles,
}

module _ {S W : Type 0} (service : Service S W) (store : HasOutbox service.repository) where
  -- `resume` with one call left settles where there is an outbox record.
  resume_found :
      (fuel : ℕ) (t : RepositoryTarget) (r : OperationRequest) (s : State S W)
      → (service.repository.get_dispatch r.request_id s.store).0 ≢ err not_found
      → runs_out (resume service (suc fuel) t r s).0 ≡ false
  unfolding resume attempt ◌>>=◌
  resume_found fuel t r s there =
      (found-Settles service _ t r (service.repository.get_dispatch r.request_id s.store).0
          there).at
        _

  after_write :
      (fuel : ℕ) (t : RepositoryTarget) (r : OperationRequest) (d : OperationDispatch)
      (o : DispatchOutcome) (s : State S W) (q : Result StorageError (Unit {0}))
      → d.request_id ≡ r.request_id
      → (service.repository.put_dispatch d s.store).0 ≡ q
      → runs_out
          (after_put_dispatch service t r d o
            (resume service (suc fuel) t r)
            q
            (record s { store = (service.repository.put_dispatch d s.store).1 })).0
        ≡ false
  unfolding after_put_dispatch raise
  after_write fuel t r d o s (ok u) same e = (dispatch-Settles service t r d o).at _
  after_write fuel t r d o s (err conflict) same e = resume_found fuel t r _ (
      subst
        (λ id.
          (service.repository.get_dispatch id (service.repository.put_dispatch d s.store).1).0
          ≢ err not_found)
        same (store.conflict_found d s.store e))
  after_write fuel t r d o s (err x) same e = refl

  write-Settles :
      (fuel : ℕ) (t : RepositoryTarget) (r : OperationRequest) (d : OperationDispatch)
      (o : DispatchOutcome)
      → d.request_id ≡ r.request_id
      → Settles (outbox_write service t r d o (resume service (suc fuel) t r))
  unfolding attempt ◌>>=◌
  write-Settles fuel t r d o same = record { at = λ s. after_write fuel t r d o s _ same refl }

  sealed_write :
      (fuel : ℕ) (t : RepositoryTarget) (r : OperationRequest) (o : DispatchOutcome)
      (q : Result String OperationDispatch)
      → ((d : OperationDispatch) → q ≡ ok d → d.request_id ≡ r.request_id)
      → Settles (
          lift (internal "seal operation dispatch") q >>= λ d.
          outbox_write service t r d o (resume service (suc fuel) t r))
  unfolding lift ◌>>=◌
  sealed_write fuel t r o (ok d) same = record {
    at = λ s. (write-Settles fuel t r d o (same d refl)).at s;
  }
  sealed_write fuel t r o (err e) same = record { at = λ s. refl }

  prepare-Settles :
      (fuel : ℕ) (t : RepositoryTarget) (r : OperationRequest)
      → Settles (prepare service (resume service (suc fuel) t r) t r)
  unfolding prepare
  prepare-Settles fuel t r = Settles-bind _ _ (Settles-sense _) λ (token, prepared).
      Settles-bind _ _ (Settles-sense _) λ random.
        Settles-bind _ _ (Settles-lift _ random refl) λ value.
          Settles-bind _ _ (Settles-sense _) λ now.
            sealed_write fuel t r prepared _
              (request_id-dispatch service.crypto service.signer r (uuid_text value) token now)

  resume-Settles :
      (fuel : ℕ) (t : RepositoryTarget) (r : OperationRequest)
      → Settles (resume service (suc (suc fuel)) t r)
  unfolding resume
  resume-Settles fuel t r =
      Settles-bind _ _ (Settles-attempt _)
        λ found. resume_dispatch-Settles service _ t r found (prepare-Settles fuel t r)

  resume_same-Settles :
      (fuel : ℕ) (t : RepositoryTarget) (i : OperationIntent) (email : Text)
      (q : Result StorageError OperationRequest)
      → Settles (resume_same service (suc (suc fuel)) t i email q)
  unfolding resume_same
  resume_same-Settles fuel t i email (ok r) = search (settles_rules, resume-Settles)
  resume_same-Settles fuel t i email (err e) = search settles_rules

  after_put_request-Settles :
      (fuel : ℕ) (t : RepositoryTarget) (i : OperationIntent) (email : Text) (r : OperationRequest)
      (q : Result StorageError (Unit {0}))
      → Settles (after_put_request service (suc (suc fuel)) t i email r q)
  unfolding after_put_request
  after_put_request-Settles fuel t i email r (ok u) = prepare-Settles (suc fuel) t r
  after_put_request-Settles fuel t i email r (err conflict) =
      search (settles_rules, resume_same-Settles)
  after_put_request-Settles fuel t i email r (err e) = search settles_rules

  after_reserve-Settles :
      (fuel : ℕ) (t : RepositoryTarget) (i : OperationIntent) (email : Text) (r : OperationRequest)
      (q : Result StorageError (Unit {0}))
      → Settles (after_reserve service (suc (suc fuel)) t i email r q)
  unfolding after_reserve
  after_reserve-Settles fuel t i email r (ok u) = search (settles_rules, after_put_request-Settles)
  after_reserve-Settles fuel t i email r (err conflict) =
      search (settles_rules, resume_same-Settles)
  after_reserve-Settles fuel t i email r (err e) = search settles_rules

  intent_expiry-Settles : (now : Time) (i : OperationIntent) → Settles (intent_expiry service now i)
  unfolding intent_expiry
  intent_expiry-Settles now i = search settles_rules depth 8

  create_new-Settles :
      (fuel : ℕ) (t : RepositoryTarget) (identity : Identity) (i : OperationIntent)
      → Settles (create_new service (suc (suc fuel)) t identity i)
  unfolding create_new
  create_new-Settles fuel t identity i =
      search
        (settles_rules, intent_expiry-Settles, validate_evidence-Settles, after_reserve-Settles)
        depth 24

  create_or_resume-Settles :
      (fuel : ℕ) (t : RepositoryTarget) (identity : Identity) (i : OperationIntent)
      (q : Result StorageError OperationRequest)
      → Settles (create_or_resume service (suc (suc fuel)) t identity i q)
  unfolding create_or_resume
  create_or_resume-Settles fuel t identity i (ok r) = search (settles_rules, resume-Settles) depth 8
  create_or_resume-Settles fuel t identity i (err not_found) = create_new-Settles fuel t identity i
  create_or_resume-Settles fuel t identity i (err e) = search settles_rules

  refusal-Settles :
      (e : CatalogError)
      → Settles {S = S} {W = W} (raise {A = OperationReceipt} (catalog_failure e))
  unfolding raise
  refusal-Settles not_catalogued = record { at = λ s. refl }
  refusal-Settles disabled = record { at = λ s. refl }
  refusal-Settles (other message) = record { at = λ s. refl }

  authorized-Settles :
      (fuel : ℕ) (identity : Identity) (i : OperationIntent)
      (q : Result CatalogError RepositoryTarget)
      → Settles (authorized service (suc (suc fuel)) identity i q)
  authorized-Settles fuel identity i (ok t) = search (settles_rules, create_or_resume-Settles)
  authorized-Settles fuel identity i (err e) = refusal-Settles e

  create-Settles :
      (fuel : ℕ) (identity : Identity) (role : Role) (i : OperationIntent)
      → Settles (create service (suc (suc fuel)) identity role i)
  unfolding create
  create-Settles fuel identity role i = search (settles_rules, authorized-Settles)

  not_stuck : (q : Result Failure OperationReceipt) → runs_out q ≡ false → q ≢ err stuck
  not_stuck q h e = false≢true (sym h ∙ ap runs_out e)

  -- Two calls of `resume` are enough: on a store that has the outbox record which it refuses to
  -- write again, `Create` ends with a receipt or with an error of the program, from every state.
  pub create_returns :
      (fuel : ℕ) (identity : Identity) (role : Role) (i : OperationIntent) (s : State S W)
      → (create service (suc (suc fuel)) identity role i s).0 ≢ err stuck
  create_returns fuel identity role i s = not_stuck _ ((create-Settles fuel identity role i).at s)
