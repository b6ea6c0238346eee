-- ===== src/Tests/ApiWitnesses.antt =====
-- The theorems on internal/api/server.go at concrete data.
use estate_ci.Prelude.{◌≡◌, ◌≢◌, ◌⊎◌, refl, true, bytes}
use estate_ci.Api.Accepting.{is_accepted}
use estate_ci.Api.Authenticated.{IsAdmitted, is_public, known_or_public}
use estate_ci.Api.Operator.{IsSubmission, accepted-IsSubmission}
use estate_ci.Api.Permitted.{IsPermittedSubmission, accepted-IsPermitted}
use estate_ci.Api.ReadOnly.{memory-ReadsOnly, reads_change_nothing}
use estate_ci.Api.Server.{serve}
use estate_ci.Storage.Cloud.Decoding.{strict_json}
use estate_ci.Tests.Everything.{everything}
use estate_ci.Tests.Parts.{http_api}
use estate_ci.Tests.Fixtures.{test_crypto, start}
use estate_ci.Tests.ApiFixtures.{test_server, submission, listing}

submitted : is_accepted (serve test_server submission start).0.1 ≡ true
unfolding everything http_api strict_json
submitted = refl

accepted-IsSubmission_example :
    IsSubmission test_server submission start (serve test_server submission start).0.1
accepted-IsSubmission_example = accepted-IsSubmission test_server submission start submitted

accepted-IsPermitted_example : IsPermittedSubmission test_server submission start
accepted-IsPermitted_example = accepted-IsPermitted test_server submission start submitted

known_or_public_example :
    IsAdmitted test_server listing start
    ⊎ (((serve test_server listing start).1.store ≡ start.store)
        × (is_public (serve test_server listing start).0.1 ≡ true))
known_or_public_example = known_or_public test_server listing start

not_post : bytes "GET" ≢ bytes "POST"
unfolding bytes
not_post = λ e. cc

reads_change_nothing_example : (serve test_server listing start).1.store ≡ start.store
reads_change_nothing_example =
    reads_change_nothing test_server (memory-ReadsOnly test_crypto) listing start not_post
