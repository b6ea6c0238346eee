-- ===== src/Github/Broker.antt =====
-- `Broker` of internal/githubapp/client.go: the dispatcher of the service over the provider.
use Prim.Native.String.{String}
use estate_ci.Prelude.{
  ℕ, Bool, true, false, not, ◌&&◌, ◌||◌, Option, none, some, List, [], ◌∷◌, Text, bytes, Result, ok,
  err, ℤ, int_lt, zero_int, leb, nat_eq, length, is_empty, if◌then◌else◌, ◌==◌, text_instance,
  int_instance, starts_with, contains_any,
}
use estate_ci.Contract.Models.{
  OperationRequest, operation_refresh_health, operation_rerun_failed, operation_cancel_run,
}
use estate_ci.Contract.Patterns.{line_breaks}
use estate_ci.Operations.Catalog.{RepositoryTarget}
use estate_ci.Operations.Environment.{DispatchOutcome, undecided}
use estate_ci.Storage.Cloud.Decoding.{Decoder}
use estate_ci.Github.Client.{
  Client, WorkflowRun, MainBranch, observe_main, observe_run, observe_workflow_runs, mutate,
}
use estate_ci.Github.Recovery.{
  RecoveryState, encode_recovery_state, decode_recovery_state, target_workflow_id,
}

pub record Broker (W : Type 0) : Type 0 where
  pub observer : Client W
  pub dispatcher : Client W
  -- `json.Decoder` on a recovery state
  pub state : Decoder RecoveryState

abbrev pub pending_outcome : DispatchOutcome
pending_outcome = record undecided { reason_code = bytes "GITHUB_DISPATCH_OUTCOME_PENDING" }

abbrev pub rejection : String → DispatchOutcome
rejection reason = record undecided { final = true; reason_code = bytes reason }

abbrev pub acceptance : String → Text → DispatchOutcome
acceptance reason reference = record {
  final = true;
  accepted = true;
  reason_code = bytes reason;
  provider_reference = reference;
}

unfoldable pub rejected_preparation : String → Text × DispatchOutcome
rejected_preparation reason = (bytes "cHJlcGFyYXRpb24tcmVqZWN0ZWQ", rejection reason)

unfoldable pub valid_run_reference : Text → Bool
unfolding starts_with contains_any bytes
valid_run_reference url =
    leb (length url) 512 && starts_with (bytes "https://") url && not (contains_any line_breaks url)

abbrev pub is_refresh : OperationRequest → Bool
is_refresh r = r.operation == operation_refresh_health

abbrev pub is_rerun : OperationRequest → Bool
is_rerun r = r.operation == operation_rerun_failed

abbrev pub is_cancel : OperationRequest → Bool
is_cancel r = r.operation == operation_cancel_run

-- The run is one of the workflow on the protected commit, and newer than the baseline.
unfoldable pub newer_run : OperationRequest → ℤ → WorkflowRun → Bool
newer_run r baseline run =
    int_lt baseline run.id
    && run.workflow_id == r.workflow_id
    && run.head_sha == r.protected_main_sha

-- The greatest ID of such a run, from `baseline` on.
unfoldable pub baseline_of : OperationRequest → ℤ → List WorkflowRun → ℤ
baseline_of r baseline [] = baseline
baseline_of r baseline (run ∷ runs) =
    baseline_of r (if newer_run r baseline run then run.id else baseline) runs

unfoldable pub same_run : OperationRequest → WorkflowRun → Bool
same_run r run =
    run.id == r.workflow_run_id
    && run.workflow_id == r.workflow_id
    && run.head_sha == r.protected_main_sha

abbrev pub state_of : OperationRequest → ℤ → ℤ → Text → RecoveryState
state_of r run_id run_attempt reference = record {
  operation = r.operation;
  repository = r.repository;
  workflow_id = r.workflow_id;
  workflow_run_id = r.workflow_run_id;
  protected_main_sha = r.protected_main_sha;
  baseline_run_id = run_id;
  baseline_run_attempt = run_attempt;
  provider_reference = reference;
}

abbrev pub encoded_preparation : Result String Text → Text × DispatchOutcome
encoded_preparation (err e) = rejected_preparation "RECOVERY_STATE_INVALID"
encoded_preparation (ok token) = (token, undecided)

unfoldable pub prepared : RecoveryState → Text × DispatchOutcome
prepared state = encoded_preparation (encode_recovery_state state)

abbrev pub prepare_refresh :
    OperationRequest → Result String (List WorkflowRun) → Text × DispatchOutcome
prepare_refresh r (err e) = rejected_preparation "WORKFLOW_RUN_BASELINE_FAILED"
prepare_refresh r (ok runs) = prepared (state_of r (baseline_of r zero_int runs) zero_int ([]))

unfoldable pub prepare_known_run : OperationRequest → WorkflowRun → Text × DispatchOutcome
prepare_known_run r run =
    if not (same_run r run && run.head_branch == bytes "main")
    then rejected_preparation "WORKFLOW_RUN_BINDING_FAILED"
    else if not (valid_run_reference run.html_url)
    then rejected_preparation "WORKFLOW_RUN_REFERENCE_INVALID"
    else if is_rerun r
        && (not (run.status == bytes "completed")
            || run.conclusion == bytes "success"
            || is_empty run.conclusion)
    then rejected_preparation "WORKFLOW_RUN_NOT_FAILED"
    else if is_cancel r
        && not (run.status == bytes "queued")
        && not (run.status == bytes "in_progress")
    then rejected_preparation "WORKFLOW_RUN_NOT_CANCELLABLE"
    else prepared (state_of r zero_int run.run_attempt run.html_url)

abbrev pub prepare_run : OperationRequest → Result String WorkflowRun → Text × DispatchOutcome
prepare_run r (err e) = rejected_preparation "WORKFLOW_RUN_BINDING_FAILED"
prepare_run r (ok run) = prepare_known_run r run

abbrev pub main_agrees : RepositoryTarget → OperationRequest → Result String MainBranch → Bool
main_agrees target r (err e) = false
main_agrees target r (ok branch) =
    branch.protected && branch.sha == r.protected_main_sha && target.main_branch == bytes "main"

-- The status that means success.
unfoldable pub expected_status : OperationRequest → ℕ
expected_status r = if is_cancel r then 202 else if is_refresh r then 204 else 201

abbrev pub dispatched : OperationRequest → RecoveryState → Result String ℕ → DispatchOutcome
dispatched r state (err e) = pending_outcome
dispatched r state (ok status) =
    if not (nat_eq status (expected_status r))
    then (if leb 500 status then pending_outcome else rejection "GITHUB_DISPATCH_REJECTED")
    else acceptance "GITHUB_OPERATION_ACCEPTED" state.provider_reference

-- The one newer run, if there is one; `none` if there are several.
unfoldable pub find_candidate :
    OperationRequest → ℤ → Option WorkflowRun → List WorkflowRun → Option (Option WorkflowRun)
find_candidate r baseline candidate [] = some candidate
find_candidate r baseline candidate (run ∷ runs) =
    let first = find_candidate r baseline (some run) runs in
    let skip = find_candidate r baseline candidate runs in
    if newer_run r baseline run then elim candidate [ none ↦ first | some other ↦ none ] else skip

abbrev pub recovered_candidate : Option (Option WorkflowRun) → DispatchOutcome
recovered_candidate none = pending_outcome
recovered_candidate (some none) = pending_outcome
recovered_candidate (some (some run)) =
    if valid_run_reference run.html_url
    then acceptance "GITHUB_OPERATION_RECOVERED" run.html_url
    else pending_outcome

abbrev pub recovered_refresh :
    OperationRequest → RecoveryState → Result String (List WorkflowRun) → DispatchOutcome
recovered_refresh r state (err e) = pending_outcome
recovered_refresh r state (ok runs) =
    recovered_candidate (find_candidate r state.baseline_run_id none runs)

abbrev pub recovered_run :
    OperationRequest → RecoveryState → Result String WorkflowRun → DispatchOutcome
recovered_run r state (err e) = pending_outcome
recovered_run r state (ok run) =
    if not (same_run r run)
    then pending_outcome
    else if is_rerun r && int_lt state.baseline_run_attempt run.run_attempt
    then acceptance "GITHUB_OPERATION_RECOVERED" state.provider_reference
    else if is_cancel r && run.status == bytes "completed" && run.conclusion == bytes "cancelled"
    then acceptance "GITHUB_OPERATION_RECOVERED" state.provider_reference
    else pending_outcome

module _ {W : Type 0} (broker : Broker W) where
  open broker use {observer, dispatcher}

  abbrev pub prepare_observed : OperationRequest → W → (Text × DispatchOutcome) × W
  prepare_observed r w =
      if is_refresh r
      then (let (runs, w') =
            observe_workflow_runs observer r.repository r.workflow_id r.protected_main_sha w in
          (prepare_refresh r runs, w'))
      else (let (run, w') = observe_run observer r.repository r.workflow_run_id w in
          (prepare_run r run, w'))

  unfoldable pub prepare : RepositoryTarget → OperationRequest → W → (Text × DispatchOutcome) × W
  prepare target r w =
      if not (
        target.repository == r.repository && target_workflow_id target r.operation == r.workflow_id)
      then (rejected_preparation "EXACT_CATALOG_BINDING_FAILED", w)
      else let (branch, w1) = observe_main observer r.repository w in
        if main_agrees target r branch
        then prepare_observed r w1
        else (rejected_preparation "PROTECTED_MAIN_OBSERVATION_FAILED", w1)

  abbrev pub dispatch_decoded :
      OperationRequest → Result String RecoveryState → W → DispatchOutcome × W
  dispatch_decoded r (err e) w = (rejection "RECOVERY_STATE_INVALID", w)
  dispatch_decoded r (ok state) w =
      let (status, w') = mutate dispatcher r w in (dispatched r state status, w')

  unfoldable pub dispatch : RepositoryTarget → OperationRequest → Text → W → DispatchOutcome × W
  dispatch target r token w =
      dispatch_decoded r (decode_recovery_state broker.state token target r) w

  abbrev pub recover_decoded :
      OperationRequest → Result String RecoveryState → W → DispatchOutcome × W
  recover_decoded r (err e) w = (rejection "RECOVERY_STATE_INVALID", w)
  recover_decoded r (ok state) w =
      if is_refresh r
      then (let (runs, w') =
            observe_workflow_runs observer r.repository r.workflow_id r.protected_main_sha w in
          (recovered_refresh r state runs, w'))
      else (let (run, w') = observe_run observer r.repository r.workflow_run_id w in
          (recovered_run r state run, w'))

  unfoldable pub recover : RepositoryTarget → OperationRequest → Text → W → DispatchOutcome × W
  recover target r token w = recover_decoded r (decode_recovery_state broker.state token target r) w
