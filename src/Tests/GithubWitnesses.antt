-- ===== src/Tests/GithubWitnesses.antt =====
-- The theorems on internal/githubapp/client.go at concrete data.
use estate_ci.Prelude.{◌≡◌, ◌⊎◌, refl, true, false, bytes, ok}
use estate_ci.Github.Broker.{prepare, dispatch, recover}
use estate_ci.Github.Fresh.{Obtained, token-Obtained}
use estate_ci.Github.Outcomes.{IsRefused, IsAnswered, dispatch_final_outcome}
use estate_ci.Github.Recovered.{Recovery, recover_final_outcome}
use estate_ci.Github.Prepared.{IsPrepared, prepare-IsPrepared}
use estate_ci.Github.Tokens.{token}
use estate_ci.Storage.Cloud.Decoding.{strict_json}
use estate_ci.Tests.Everything.{everything}
use estate_ci.Tests.Parts.{github_client}
use estate_ci.Tests.Fixtures.{test_target}
use estate_ci.Tests.Data.{sealed_request}
use estate_ci.Tests.GithubFixtures.{test_broker, prepared_token, test_source, no_token}

not_final : (prepare test_broker test_target sealed_request 0).0.1.final ≡ false
unfolding everything github_client strict_json
not_final = refl

prepare-IsPrepared_example :
    IsPrepared test_broker test_target sealed_request 0
      (prepare test_broker test_target sealed_request 0).0.0
prepare-IsPrepared_example = prepare-IsPrepared test_broker test_target sealed_request 0 not_final

dispatch_final : (dispatch test_broker test_target sealed_request prepared_token 0).0.final ≡ true
unfolding everything github_client strict_json
dispatch_final = refl

dispatch_final_outcome_example :
    IsRefused test_broker test_target sealed_request prepared_token 0
      (dispatch test_broker test_target sealed_request prepared_token 0)
    ⊎ IsAnswered test_broker test_target sealed_request prepared_token 0
        (dispatch test_broker test_target sealed_request prepared_token 0).0
dispatch_final_outcome_example =
    dispatch_final_outcome test_broker test_target sealed_request prepared_token 0 dispatch_final

recover_final : (recover test_broker test_target sealed_request prepared_token 0).0.final ≡ true
unfolding everything github_client strict_json
recover_final = refl

recover_final_outcome_example :
    Recovery test_broker test_target sealed_request prepared_token 0
      (recover test_broker test_target sealed_request prepared_token 0).0
recover_final_outcome_example =
    recover_final_outcome test_broker test_target sealed_request prepared_token 0 recover_final

fresh_token : (token test_source (no_token, 0)).0 ≡ ok (bytes "fresh")
unfolding everything github_client strict_json
fresh_token = refl

token-Obtained_example :
    Obtained test_source no_token 0 (bytes "fresh") (token test_source (no_token, 0)).1
token-Obtained_example = token-Obtained test_source no_token 0 (bytes "fresh") fresh_token
