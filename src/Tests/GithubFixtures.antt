-- ===== src/Tests/GithubFixtures.antt =====
-- A concrete provider, and a broker over it.
use Prim.Native.String.{String}
use estate_ci.Prelude.{
  ℕ, true, some, [], ◌∷◌, Text, bytes, Result, ok, pos, if◌then◌else◌, ◌==◌, text_instance,
}
use estate_ci.Go.Http.{HttpRequest, HttpResponse}
use estate_ci.Github.Broker.{Broker, state_of, prepare}
use estate_ci.Github.Client.{Client, WorkflowRun}
use estate_ci.Github.Tokens.{TokenSource, TokenCache}
use estate_ci.Tests.Fixtures.{test_sha, test_target}
use estate_ci.Tests.Data.{sealed_request, noon_time}

abbrev run_url : Text
run_url = bytes "https://github.com/mindclade/bootstrap/actions/runs/84"

abbrev failed_run : WorkflowRun
failed_run = record {
  id = pos 84;
  workflow_id = pos 42;
  head_sha = test_sha;
  head_branch = bytes "main";
  status = bytes "completed";
  conclusion = bytes "failure";
  html_url = run_url;
  run_attempt = pos 2;
}

-- The world counts the requests with a method other than GET.
unfoldable pub provider : HttpRequest → ℕ → Result String HttpResponse × ℕ
provider r n =
    if r.method == bytes "GET"
    then (ok (record { status = 200; header = λ name. []; body = some [] }), n)
    else (ok (record { status = 201; header = λ name. []; body = some [] }), 1)

abbrev test_client : Client ℕ
test_client = record {
  exchange = provider;
  api_base = bytes "https://api.github.com";
  token = λ n. (ok (bytes "token"), n);
  valid_url = λ url. true;
  main_branch = λ raw. some (record { sha = test_sha; protected = true }, []);
  run = λ raw. some (failed_run, []);
  runs = λ raw. some (failed_run ∷ [], []);
}

abbrev pub test_broker : Broker ℕ
test_broker = record {
  observer = test_client;
  dispatcher = test_client;
  state = λ raw. some (state_of sealed_request (pos 0) (pos 1) run_url, []);
}

-- The token of a preparation.
abbrev pub prepared_token : Text
prepared_token = (prepare test_broker test_target sealed_request 0).0.0

abbrev pub test_source : TokenSource ℕ
test_source = record {
  config = record {
    app_id = pos 1;
    installation_id = pos 2;
    private_key_file = bytes "/run/key.pem";
  };
  exchange = provider;
  api_base = bytes "https://api.github.com";
  now = λ n. (noon_time, n);
  read_key = λ name n. (ok (bytes "key"), n);
  sign = λ key input n. (ok (bytes "signature"), n);
  payload =
      λ raw. some (record { token = bytes "fresh"; expires_at = bytes "2026-09-02T13:00:00Z" }, []);
}

abbrev pub no_token : TokenCache
no_token = record { token = []; expires = 0 }
