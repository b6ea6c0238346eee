-- ===== src/Github/Prepared.antt =====
-- `Prepare` of internal/githubapp/client.go: what it has found when it lets a dispatch go on.
use Prim.Native.String.{String}
use estate_ci.Prelude.{
  ◌>>=◌, ◌≡◌, ◌≢◌, refl, ap, ◌⊎◌, inl, inr, Bool, true, false, not, ◌&&◌, ◌||◌, List, Text, bytes,
  Result, ok, err, ℤ, if◌then◌else◌, ◌==◌, text_instance, int_instance, zero_int, arith, Bool-cases,
  is_empty, text_eq_iff, int_eq_iff, [],
}
use estate_ci.Go.Base64.{encode}
use estate_ci.Contract.Json.{object, text_field, int_field, no_fields}
use estate_ci.Contract.Canonical.{write_canonical}
use estate_ci.Contract.Models.{
  OperationRequest, operation_refresh_health, operation_rerun_failed, operation_cancel_run,
}
use estate_ci.Operations.Catalog.{RepositoryTarget}
use estate_ci.Operations.Environment.{DispatchOutcome}
use estate_ci.Github.Client.{
  WorkflowRun, MainBranch, observe_main, observe_run, observe_workflow_runs,
}
use estate_ci.Github.Recovery.{recovery_json, encode_recovery_state, target_workflow_id}
use estate_ci.Github.Broker.{
  Broker, state_of, prepared, encoded_preparation, prepare, prepare_refresh, prepare_run,
  prepare_known_run, prepare_observed, rejected_preparation, main_agrees, is_refresh, is_rerun,
  is_cancel, same_run, valid_run_reference,
}
use estate_ci.Github.Baseline.{IsBaseline, baseline_of-IsBaseline}

-- The token is the encoded JSON of the request's operation, repository, workflow, run and commit and
-- of a baseline.
pub record IsTokenFor (r : OperationRequest) (run_id run_attempt : ℤ) (reference token : Text)
    : Type 0 where
  pub payload : Text
  pub written :
      write_canonical (
        object (
          text_field "operation" r.operation (
            text_field "repository" r.repository (
              int_field "workflow_id" r.workflow_id (
                int_field "workflow_run_id" r.workflow_run_id (
                  text_field "protected_main_sha" r.protected_main_sha (
                    int_field "baseline_run_id" run_id (
                      int_field "baseline_run_attempt" run_attempt
                        (text_field "provider_reference" reference no_fields)))))))))
      ≡ ok payload
  pub encoded : token ≡ encode payload

-- A run that a rerun or a cancellation may name.
pub record IsNamed (r : OperationRequest) (run : WorkflowRun) : Type 0 where
  pub same_id : run.id ≡ r.workflow_run_id
  pub same_workflow : run.workflow_id ≡ r.workflow_id
  pub same_commit : run.head_sha ≡ r.protected_main_sha
  pub on_main : run.head_branch ≡ bytes "main"
  pub reference : valid_run_reference run.html_url ≡ true
  pub failed :
      r.operation ≡ operation_rerun_failed
      → (run.status ≡ bytes "completed")
        × (run.conclusion ≢ bytes "success")
        × (run.conclusion ≢ [])
  pub live :
      r.operation ≡ operation_cancel_run
      → (run.status ≡ bytes "queued") ⊎ (run.status ≡ bytes "in_progress")

-- A preparation that is not final satisfies `P`.
record Opens (P : Text → Type 0) (out : Text × DispatchOutcome) : Type 0 where
  open_token : out.1.final ≡ false → P out.0

Opens-if :
    {P : Text → Type 0} (b : Bool) (x y : Text × DispatchOutcome)
    → (b ≡ true → Opens P x)
    → (b ≡ false → Opens P y)
    → Opens P (if b then x else y)
Opens-if true x y h k = h refl
Opens-if false x y h k = k refl

rejected-Opens : {P : Text → Type 0} (reason : String) → Opens P (rejected_preparation reason)
unfolding rejected_preparation
rejected-Opens reason = record { open_token = λ h. cc }

token_for :
    (r : OperationRequest) (run_id run_attempt : ℤ) (reference token : Text)
    (q : Result String Text)
    → write_canonical (recovery_json (state_of r run_id run_attempt reference)) ≡ q
    → (do raw ← q; ok (encode raw)) ≡ ok token
    → IsTokenFor r run_id run_attempt reference token
unfolding recovery_json
token_for r run_id run_attempt reference token (err e) h k = cc
token_for r run_id run_attempt reference token (ok payload) h k = record {
  payload = payload;
  written = h;
  encoded = cc;
}

encoded-Opens :
    {P : Text → Type 0} (q : Result String Text)
    → ((token : Text) → q ≡ ok token → P token)
    → Opens P (encoded_preparation q)
encoded-Opens (err e) h = rejected-Opens _
encoded-Opens (ok token) h = record { open_token = λ k. h token refl }

-- A prepared state goes on with its token.
prepared-Opens :
    {P : Text → Type 0} (r : OperationRequest) (run_id run_attempt : ℤ) (reference : Text)
    → ((token : Text) → IsTokenFor r run_id run_attempt reference token → P token)
    → Opens P (prepared (state_of r run_id run_attempt reference))
unfolding prepared encode_recovery_state
prepared-Opens r run_id run_attempt reference h =
    encoded-Opens _ λ token e. h token (token_for r run_id run_attempt reference token _ refl e)

run-IsNamed :
    (r : OperationRequest) (run : WorkflowRun)
    → (not (same_run r run && run.head_branch == bytes "main")) ≡ false
    → not (valid_run_reference run.html_url) ≡ false
    → (is_rerun r
        && (not (run.status == bytes "completed")
            || run.conclusion == bytes "success"
            || is_empty run.conclusion))
      ≡ false
    → (is_cancel r && not (run.status == bytes "queued") && not (run.status == bytes "in_progress"))
      ≡ false
    → IsNamed r run
unfolding same_run
run-IsNamed r run same safe failed live = record {
  same_id = ground (arith, same, int_eq_iff run.id r.workflow_run_id);
  same_workflow = ground (arith, same, int_eq_iff run.workflow_id r.workflow_id);
  same_commit = ground (arith, same, text_eq_iff run.head_sha r.protected_main_sha);
  on_main = ground (arith, same, text_eq_iff run.head_branch (bytes "main"));
  reference = ground (arith, safe);
  failed = λ o. when_rerun ((text_eq_iff r.operation operation_rerun_failed).1 o);
  live = λ o. when_cancel ((text_eq_iff r.operation operation_cancel_run).1 o);
}
  where
    when_rerun :
        is_rerun r ≡ true
        → (run.status ≡ bytes "completed")
          × (run.conclusion ≢ bytes "success")
          × (run.conclusion ≢ [])
    when_rerun o = (
      ground (arith, failed, o, text_eq_iff run.status (bytes "completed")),
      λ e. ground (arith, failed, o, (text_eq_iff run.conclusion (bytes "success")).1 e),
      λ e. ground (arith, failed, o, ap is_empty e),
    )

    when_cancel :
        is_cancel r ≡ true → (run.status ≡ bytes "queued") ⊎ (run.status ≡ bytes "in_progress")
    when_cancel o = elim (Bool-cases (run.status == bytes "queued")) [
      | inl queued ↦ inl ((text_eq_iff run.status (bytes "queued")).0 queued)
      | inr not_queued ↦
          inr (ground (arith, live, o, not_queued, text_eq_iff run.status (bytes "in_progress")))
    ]

known-Opens :
    {P : Text → Type 0} (r : OperationRequest) (run : WorkflowRun)
    → ((token : Text)
        → IsNamed r run
        → IsTokenFor r zero_int run.run_attempt run.html_url token
        → P token)
    → Opens P (prepare_known_run r run)
unfolding prepare_known_run
known-Opens r run h =
    Opens-if (not (same_run r run && run.head_branch == bytes "main")) _ _ (λ _. rejected-Opens _)
      λ same.
        Opens-if (not (valid_run_reference run.html_url)) _ _ (λ _. rejected-Opens _)
          λ safe.
            Opens-if
              (is_rerun r
                && (not (run.status == bytes "completed")
                    || run.conclusion == bytes "success"
                    || is_empty run.conclusion))
              _ _ (λ _. rejected-Opens _)
              λ failed.
                Opens-if
                  (is_cancel r
                    && not (run.status == bytes "queued")
                    && not (run.status == bytes "in_progress"))
                  _ _ (λ _. rejected-Opens _)
                  λ live.
                    prepared-Opens r zero_int run.run_attempt run.html_url
                      λ token. h token (run-IsNamed r run same safe failed live)

module _ {W : Type 0} (broker : Broker W) where
  -- The token holds the baseline that was observed at `w`.
  pub data IsObserved (r : OperationRequest) (w : W) (token : Text) : Type 0 where
    newest :
        (runs : List WorkflowRun) (baseline : ℤ)
        → r.operation ≡ operation_refresh_health
        → (observe_workflow_runs broker.observer r.repository r.workflow_id r.protected_main_sha
            w).0
          ≡ ok runs
        → IsBaseline r zero_int runs baseline
        → IsTokenFor r baseline zero_int ([]) token
        → IsObserved r w token
    named :
        (run : WorkflowRun)
        → r.operation ≢ operation_refresh_health
        → (observe_run broker.observer r.repository r.workflow_run_id w).0 ≡ ok run
        → IsNamed r run
        → IsTokenFor r zero_int run.run_attempt run.html_url token
        → IsObserved r w token

  -- What `Prepare` has found at `w` when it lets a dispatch go on.
  pub record IsPrepared (target : RepositoryTarget) (r : OperationRequest) (w : W) (token : Text)
      : Type 0 where
    pub same_repository : target.repository ≡ r.repository
    pub same_workflow : target_workflow_id target r.operation ≡ r.workflow_id
    pub branch : MainBranch
    pub observed : (observe_main broker.observer r.repository w).0 ≡ ok branch
    pub protected : branch.protected ≡ true
    pub same_commit : branch.sha ≡ r.protected_main_sha
    pub baseline : IsObserved r (observe_main broker.observer r.repository w).1 token

  refresh-Opens :
      (r : OperationRequest) (w : W) (q : Result String (List WorkflowRun))
      → r.operation ≡ operation_refresh_health
      → (observe_workflow_runs broker.observer r.repository r.workflow_id r.protected_main_sha w).0
        ≡ q
      → Opens (IsObserved r w) (prepare_refresh r q)
  refresh-Opens r w (err e) h o = rejected-Opens _
  refresh-Opens r w (ok runs) h o =
      prepared-Opens r _ zero_int ([])
        λ token. newest runs _ h o (baseline_of-IsBaseline r zero_int runs)

  run-Opens :
      (r : OperationRequest) (w : W) (q : Result String WorkflowRun)
      → r.operation ≢ operation_refresh_health
      → (observe_run broker.observer r.repository r.workflow_run_id w).0 ≡ q
      → Opens (IsObserved r w) (prepare_run r q)
  run-Opens r w (err e) h o = rejected-Opens _
  run-Opens r w (ok run) h o = known-Opens r run λ token. named run h o

  preparation-Opens :
      (r : OperationRequest) (w : W) → Opens (IsObserved r w) (prepare_observed broker r w).0
  preparation-Opens r w = elim (Bool-cases (is_refresh r)) [
    | inl refresh ↦
        rw refresh
          (refresh-Opens r w _ ((text_eq_iff r.operation operation_refresh_health).0 refresh) refl)
    | inr other ↦ rw other (
        run-Opens r w _
          (λ e. ground (arith, (text_eq_iff r.operation operation_refresh_health).1 e)) refl)
  ]

  main-IsPrepared :
      (target : RepositoryTarget) (r : OperationRequest) (w : W)
      → (target.repository == r.repository
          && target_workflow_id target r.operation == r.workflow_id)
        ≡ true
      → (q : Result String MainBranch) → (observe_main broker.observer r.repository w).0 ≡ q
      → main_agrees target r q ≡ true
      → (prepare_observed broker r (observe_main broker.observer r.repository w).1).0.1.final
        ≡ false
      → IsPrepared target r w
          (prepare_observed broker r (observe_main broker.observer r.repository w).1).0.0
  main-IsPrepared target r w c (err e) o agrees final = cc
  main-IsPrepared target r w c (ok branch) o agrees final = record {
    same_repository = ground (arith, text_eq_iff target.repository r.repository);
    same_workflow =
        ground (arith, int_eq_iff (target_workflow_id target r.operation) r.workflow_id);
    branch = branch;
    observed = o;
    protected = ground arith;
    same_commit = ground (arith, text_eq_iff branch.sha r.protected_main_sha);
    baseline = (preparation-Opens r _).open_token final;
  }

  -- A preparation that is not final satisfies `P`.
  record Goes (P : Text → Type 0) (out : (Text × DispatchOutcome) × W) : Type 0 where
    on : out.0.1.final ≡ false → P out.0.0

  Goes-if :
      {P : Text → Type 0} (b : Bool) (x y : (Text × DispatchOutcome) × W)
      → (b ≡ true → Goes P x)
      → (b ≡ false → Goes P y)
      → Goes P (if b then x else y)
  Goes-if true x y h k = h refl
  Goes-if false x y h k = k refl

  rejected-Goes :
      {P : Text → Type 0} (reason : String) (w : W) → Goes P (rejected_preparation reason, w)
  unfolding rejected_preparation
  rejected-Goes reason w = record { on = λ h. cc }

  prepare-Goes :
      (target : RepositoryTarget) (r : OperationRequest) (w : W)
      → Goes (IsPrepared target r w) (prepare broker target r w)
  unfolding prepare
  prepare-Goes target r w =
      let bound =
        target.repository == r.repository
        && target_workflow_id target r.operation == r.workflow_id in
      let (seen, w1) = observe_main broker.observer r.repository w in
      Goes-if (not bound) _ _ (λ e. rejected-Goes _ w)
        λ c.
          Goes-if (main_agrees target r seen) _ _
            (λ agrees. record {
              on = main-IsPrepared target r w (ground (arith, c)) seen refl agrees;
            })
            (λ differs. rejected-Goes _ w1)

  -- A preparation that is not final is one of a request that is bound to its target in the catalog,
  -- whose commit was observed as the head of a protected main branch. Its token is the encoded JSON of
  -- the request's operation, repository, workflow, run and commit and of what was observed next: for
  -- a refresh, a baseline that the ID of no observed run of the workflow on the commit is above and
  -- that is 0 or the ID of such a run, with attempt 0 and no reference; for another operation,
  -- baseline 0 and the attempt and the valid address of the request's run, which is of the workflow,
  -- on the commit and on main, is completed with a conclusion other than success for a rerun, and is
  -- queued or in progress for a cancellation.
  pub prepare-IsPrepared :
      (target : RepositoryTarget) (r : OperationRequest) (w : W)
      → (prepare broker target r w).0.1.final ≡ false
      → IsPrepared target r w (prepare broker target r w).0.0
  prepare-IsPrepared target r w final = (prepare-Goes target r w).on final
