-- ===== src/Github/Recovered.antt =====
-- `Recover` of internal/githubapp/client.go.
use Prim.Native.String.{String}
use estate_ci.Prelude.{
  ◌≡◌, refl, true, false, ◌&&◌, inl, inr, Option, none, some, List, [], ◌∷◌, Text, bytes, Result,
  ok, err, ℤ, int_lt, if◌then◌else◌, text_instance, arith, Bool-cases, and-left, and-right,
  text_eq_iff,
}
use estate_ci.Contract.Models.{OperationRequest}
use estate_ci.Operations.Catalog.{RepositoryTarget}
use estate_ci.Operations.Environment.{DispatchOutcome}
use estate_ci.Github.Client.{WorkflowRun, observe_run, observe_workflow_runs}
use estate_ci.Github.Recovery.{RecoveryState, decode_recovery_state}
use estate_ci.Github.Broker.{
  Broker, recover, recover_decoded, recovered_refresh, recovered_run, recovered_candidate,
  find_candidate, newer_run, same_run, is_refresh, is_rerun, is_cancel,
}

-- The runs that are newer than the baseline, in their order.
abbrev pub newer_runs : OperationRequest → ℤ → List WorkflowRun → List WorkflowRun
newer_runs r baseline [] = []
newer_runs r baseline (run ∷ runs) =
    if newer_run r baseline run
    then run ∷ newer_runs r baseline runs
    else newer_runs r baseline runs

-- With a candidate at hand, the loop keeps it only if no newer run follows.
find_candidate-later :
    (r : OperationRequest) (baseline : ℤ) (candidate run : WorkflowRun) (runs : List WorkflowRun)
    → find_candidate r baseline (some candidate) runs ≡ some (some run)
    → (candidate ≡ run) × (newer_runs r baseline runs ≡ [])
unfolding find_candidate
find_candidate-later r baseline candidate run [] h = (cc, refl)
find_candidate-later r baseline candidate run (x ∷ runs) h =
    ground (arith, find_candidate-later r baseline candidate run runs)

find_candidate-only :
    (r : OperationRequest) (baseline : ℤ) (run : WorkflowRun) (runs : List WorkflowRun)
    → find_candidate r baseline none runs ≡ some (some run)
    → newer_runs r baseline runs ≡ run ∷ []
unfolding find_candidate
find_candidate-only r baseline run [] h = cc
find_candidate-only r baseline run (x ∷ runs) h =
    ground
      (arith, find_candidate-only r baseline run runs, find_candidate-later r baseline x run runs)

module _ {W : Type 0} (broker : Broker W) where
  -- The provider shows that the operation has been done.
  pub data Seen (r : OperationRequest) (state : RecoveryState) (w : W) : Type 0 where
    -- one run of the workflow on the protected commit is newer than those before the dispatch
    new_run :
        (runs : List WorkflowRun) (run : WorkflowRun)
        → is_refresh r ≡ true
        → (observe_workflow_runs broker.observer r.repository r.workflow_id r.protected_main_sha
            w).0
          ≡ ok runs
        → newer_runs r state.baseline_run_id runs ≡ run ∷ []
        → Seen r state w
    -- the run has another attempt
    new_attempt :
        (run : WorkflowRun)
        → is_rerun r ≡ true
        → (observe_run broker.observer r.repository r.workflow_run_id w).0 ≡ ok run
        → same_run r run ≡ true
        → int_lt state.baseline_run_attempt run.run_attempt ≡ true
        → Seen r state w
    -- the run is cancelled
    cancelled :
        (run : WorkflowRun)
        → is_cancel r ≡ true
        → (observe_run broker.observer r.repository r.workflow_run_id w).0 ≡ ok run
        → same_run r run ≡ true
        → run.status ≡ bytes "completed"
        → run.conclusion ≡ bytes "cancelled"
        → Seen r state w

  -- What a final outcome of a recovery rests on.
  pub data Recovery (target : RepositoryTarget) (r : OperationRequest) (token : Text) (w : W)
      (outcome : DispatchOutcome) : Type 0 where
    refused :
        (reason : String)
        → decode_recovery_state broker.state token target r ≡ err reason
        → outcome.accepted ≡ false
        → Recovery target r token w outcome
    found :
        (state : RecoveryState)
        → decode_recovery_state broker.state token target r ≡ ok state
        → Seen r state w
        → outcome.accepted ≡ true
        → Recovery target r token w outcome

  candidate-Seen :
      (r : OperationRequest) (state : RecoveryState) (w : W) (runs : List WorkflowRun)
      → is_refresh r ≡ true
      → (observe_workflow_runs broker.observer r.repository r.workflow_id r.protected_main_sha w).0
        ≡ ok runs
      → (q : Option (Option WorkflowRun)) → find_candidate r state.baseline_run_id none runs ≡ q
      → (recovered_candidate q).final ≡ true
      → Seen r state w × ((recovered_candidate q).accepted ≡ true)
  candidate-Seen r state w runs refresh o none e final = cc
  candidate-Seen r state w runs refresh o (some none) e final = cc
  candidate-Seen r state w runs refresh o (some (some run)) e final = (
    new_run runs run refresh o (find_candidate-only r state.baseline_run_id run runs e),
    ground arith,
  )

  refresh-Seen :
      (r : OperationRequest) (state : RecoveryState) (w : W)
      → is_refresh r ≡ true
      → (q : Result String (List WorkflowRun))
      → (observe_workflow_runs broker.observer r.repository r.workflow_id r.protected_main_sha w).0
        ≡ q
      → (recovered_refresh r state q).final ≡ true
      → Seen r state w × ((recovered_refresh r state q).accepted ≡ true)
  refresh-Seen r state w refresh (err e) o final = cc
  refresh-Seen r state w refresh (ok runs) o final =
      candidate-Seen r state w runs refresh o _ refl final

  run-Seen :
      (r : OperationRequest) (state : RecoveryState) (w : W) (q : Result String WorkflowRun)
      → (observe_run broker.observer r.repository r.workflow_run_id w).0 ≡ q
      → (recovered_run r state q).final ≡ true
      → Seen r state w × ((recovered_run r state q).accepted ≡ true)
  run-Seen r state w (err e) o final = cc
  run-Seen r state w (ok run) o final =
      elim (Bool-cases (is_rerun r && int_lt state.baseline_run_attempt run.run_attempt)) [
        | inl again ↦ (
          new_attempt run (and-left _ _ again) o (ground arith) (and-right _ _ again),
          ground arith,
        )
        | inr other ↦ (
          cancelled run (ground arith) o (ground arith)
              (ground (arith, text_eq_iff run.status (bytes "completed")))
              (ground (arith, text_eq_iff run.conclusion (bytes "cancelled"))),
          ground arith,
        )
      ]

  decoded-Recovery :
      (target : RepositoryTarget) (r : OperationRequest) (token : Text) (w : W)
      (q : Result String RecoveryState)
      → decode_recovery_state broker.state token target r ≡ q
      → (recover_decoded broker r q w).0.final ≡ true
      → Recovery target r token w (recover_decoded broker r q w).0
  decoded-Recovery target r token w (err e) d final = refused e d refl
  decoded-Recovery target r token w (ok state) d final = elim (Bool-cases (is_refresh r)) [
    | inl refresh ↦
        let (seen, acc) = refresh-Seen r state w refresh _ refl (rw refresh at final) in
        rw refresh (found state d seen acc)
    | inr other ↦
        let (seen, acc) = run-Seen r state w _ refl (rw other at final) in
        rw other (found state d seen acc)
  ]

  -- `Recover` gives a final outcome only if it refuses the recovery token and does not accept, or if
  -- it accepts an operation that the provider shows as done: for a refresh there is exactly one run of
  -- the workflow on the protected commit that is newer than the baseline, for a rerun the run has
  -- another attempt, for a cancellation the run is completed and cancelled.
  pub recover_final_outcome :
      (target : RepositoryTarget) (r : OperationRequest) (token : Text) (w : W)
      → (recover broker target r token w).0.final ≡ true
      → Recovery target r token w (recover broker target r token w).0
  unfolding recover
  recover_final_outcome target r token w final = decoded-Recovery target r token w _ refl final
