-- ===== src/Github/Outcomes.antt =====
-- `Dispatch` of internal/githubapp/client.go.
use Prim.Native.String.{String}
use estate_ci.Prelude.{
  ℕ, ◌<◌, ◌≡◌, refl, true, false, ◌⊎◌, inl, inr, Text, Result, ok, err, nat_eq, arith,
}
use estate_ci.Contract.Models.{OperationRequest}
use estate_ci.Operations.Catalog.{RepositoryTarget}
use estate_ci.Operations.Environment.{DispatchOutcome}
use estate_ci.Github.Client.{mutate}
use estate_ci.Github.Recovery.{RecoveryState, decode_recovery_state}
use estate_ci.Github.Broker.{Broker, dispatch, dispatch_decoded, dispatched, expected_status}

module _ {W : Type 0} (broker : Broker W) where
  -- The recovery token was refused, and nothing was sent.
  pub record IsRefused (target : RepositoryTarget) (r : OperationRequest) (token : Text) (w : W)
      (outcome : DispatchOutcome × W) : Type 0 where
    pub reason : String
    pub refused : decode_recovery_state broker.state token target r ≡ err reason
    pub unsent : outcome.1 ≡ w
    pub rejected : outcome.0.accepted ≡ false

  -- The provider answered the mutation with a status below 500.
  pub record IsAnswered (target : RepositoryTarget) (r : OperationRequest) (token : Text) (w : W)
      (outcome : DispatchOutcome) : Type 0 where
    pub state : RecoveryState
    pub decoded : decode_recovery_state broker.state token target r ≡ ok state
    pub status : ℕ
    pub answered : (mutate broker.dispatcher r w).0 ≡ ok status
    pub below : status < 500
    pub agrees : outcome.accepted ≡ nat_eq status (expected_status r)

  expected_below : (r : OperationRequest) → expected_status r < 500
  unfolding expected_status
  expected_below r = ground arith

  final_answer :
      (target : RepositoryTarget) (r : OperationRequest) (token : Text) (w : W)
      (state : RecoveryState)
      → decode_recovery_state broker.state token target r ≡ ok state
      → (q : Result String ℕ) → (mutate broker.dispatcher r w).0 ≡ q
      → (dispatched r state q).final ≡ true
      → IsAnswered target r token w (dispatched r state q)
  final_answer target r token w state d (err e) m final = cc
  final_answer target r token w state d (ok status) m final = record {
    state = state;
    decoded = d;
    status = status;
    answered = m;
    below = ground (arith, expected_below r);
    agrees = ground (arith, expected_below r);
  }

  final_cases :
      (target : RepositoryTarget) (r : OperationRequest) (token : Text) (w : W)
      (q : Result String RecoveryState)
      → decode_recovery_state broker.state token target r ≡ q
      → (dispatch_decoded broker r q w).0.final ≡ true
      → IsRefused target r token w (dispatch_decoded broker r q w)
        ⊎ IsAnswered target r token w (dispatch_decoded broker r q w).0
  final_cases target r token w (err e) d final =
      inl (record { reason = e; refused = d; unsent = refl; rejected = refl })
  final_cases target r token w (ok state) d final =
      inr (final_answer target r token w state d _ refl final)

  -- `Dispatch` gives a final outcome only if it refuses the recovery token, sends nothing and does not
  -- accept, or if the provider answers the mutation with a status below 500; then it accepts exactly
  -- if the status is the one that GitHub gives to a success of this operation. No answer and an answer
  -- from 500 on leave the outcome open.
  pub dispatch_final_outcome :
      (target : RepositoryTarget) (r : OperationRequest) (token : Text) (w : W)
      → (dispatch broker target r token w).0.final ≡ true
      → IsRefused target r token w (dispatch broker target r token w)
        ⊎ IsAnswered target r token w (dispatch broker target r token w).0
  unfolding dispatch
  dispatch_final_outcome target r token w final = final_cases target r token w _ refl final
